-- ===== src/Api/Cursor/Codec.antt =====
-- The codec and the paginator of api/cursor.rs.
use crypto_collector.Prelude.{
  ℕ, zero, suc, ◌<◌, ◌≤◌, ◌≡◌, refl, Option, some, none, List, [], ◌∷◌, ◌++◌, arith, length, take,
  last?,
}
use crypto_collector.Prelude.Int.{ℤ, pos, negsuc}
use crypto_collector.Api.{Fallible}
use crypto_collector.Api.Cursor.{
  Base64, Json, validate_limit, encode_keyset_cursor, decode_keyset_cursor, decode_cursor, paginate,
}

-- Every accepted limit is between 1 and 1000.
pub validate_limit_bounds :
    (limit : Option ℤ) (n : ℤ)
    → validate_limit limit ≡ Fallible.done n
    → (m : ℕ) × (n ≡ pos m) × (1 ≤ m) × (m ≤ 1_000)
unfolding validate_limit
validate_limit_bounds none n h = (100, cc, omega arith, omega arith)
validate_limit_bounds (some (pos m)) n h = (m, ground arith, ground arith, ground arith)
validate_limit_bounds (some (negsuc m)) n h = absurd (ground arith)

-- A list longer than `suc m` splits behind its first `suc m` elements.
pub split_page {ℓ} :
    {A : Type ℓ} (m : ℕ) (ys : List A)
    → suc m < length ys
    → (pre : List A) × (x : A) × (rest : List A) × (ys ≡ pre ++ x ∷ rest)
      × (take (suc m) ys ≡ pre ++ x ∷ [])
      × (last? (take (suc m) ys) ≡ some x)
split_page m [] h = absurd (omega arith)
split_page zero (y ∷ ys) h = ([], y, ys, refl, refl, refl)
split_page (suc m) (y ∷ []) h = absurd (omega arith)
split_page (suc m) (y ∷ z ∷ ys) h =
    let (pre, x, rest, whole, front, end) = split_page m (z ∷ ys) (omega arith) in
    (y ∷ pre, x, rest, cc, cc, end)

module _ {K : Type 0} ⦃base64 : Base64⦄ ⦃json : Json K⦄ where
  pub decode_keyset_cursor-encode :
      (k : K) → decode_keyset_cursor (encode_keyset_cursor k) ≡ Fallible.done k
  unfolding encode_keyset_cursor decode_keyset_cursor
  decode_keyset_cursor-encode k =
      ground (arith, base64.decode-encode (json.to_string k), json.from_slice-to_string k)

  pub decode_cursor-encode :
      (k : K) → decode_cursor (some (encode_keyset_cursor k)) ≡ Fallible.done (some k)
  unfolding decode_cursor
  decode_cursor-encode k = ground (arith, decode_keyset_cursor-encode k)

  module _ {ℓ} {T : Type ℓ} (key_fn : T → K) where
    pub paginate_short :
        (m : ℕ) (items : List T)
        → length items ≤ m
        → paginate items (pos m) key_fn ≡ some (items, none)
    unfolding paginate
    paginate_short m items h = ground arith

    pub paginate_long :
        (m : ℕ) (pre : List T) (x : T) (items : List T)
        → m < length items
        → take m items ≡ pre ++ x ∷ []
        → last? (take m items) ≡ some x
        → paginate items (pos m) key_fn
          ≡ some (pre ++ x ∷ [], some (encode_keyset_cursor (key_fn x)))
    unfolding paginate
    paginate_long m pre x items h front end = ground arith
