-- ===== src/Api/Cursor.antt =====
-- The keyset cursors of api/cursor.rs: the codec, the limit and the generic paginator, and the read
-- that the list handlers share. The base64 engine and serde_json are parameters.
pub mod Codec
pub mod Order
pub mod Walk
use crypto_collector.Prelude.{
  ℕ, ◌+◌, ◌-◌, ◌^◌, String, Bool, true, false, not, ◌&&◌, Option, some, none, List, ◌≡◌, ltb,
  if◌then◌else◌, length, take, last?, filter_by, sort_by,
}
use crypto_collector.Prelude.Int.{ℤ, pos, negsuc, pos_part, ltb_ℤ}
use crypto_collector.Api.{Fallible, ApiResult, ◌>>=◌, bad_request_of}

-- `URL_SAFE_NO_PAD` of the crate base64.
pub record Base64 : Type 0 where
  pub encode : String → String
  pub decode : String → Option String
  pub decode-encode : (s : String) → decode (encode s) ≡ some s

-- The derived `Serialize` and `Deserialize` of a key, through serde_json.
pub record Json (K : Type 0) : Type 0 where
  pub to_string : K → String
  pub from_slice : String → Option K
  pub from_slice-to_string : (k : K) → from_slice (to_string k) ≡ some k

abbrev pub default_limit : ℤ
default_limit = pos 100

abbrev pub max_limit : ℤ
max_limit = pos 1_000

unfoldable pub validate_limit : Option ℤ → Fallible ℤ
validate_limit none = Fallible.done default_limit
validate_limit (some n) =
    if not (ltb_ℤ n (pos 1)) && not (ltb_ℤ max_limit n)
    then Fallible.done n
    else Fallible.failed "limit must be between 1 and 1000"

-- `as usize` of an `i64`.
abbrev pub as_usize : ℤ → ℕ
as_usize (pos n) = n
as_usize (negsuc n) = 2 ^ 64 - (n + 1)

module _ {K : Type 0} ⦃base64 : Base64⦄ ⦃json : Json K⦄ where
  unfoldable pub encode_keyset_cursor : K → String
  encode_keyset_cursor key = base64.encode (json.to_string key)

  unfoldable pub decode_keyset_cursor : String → Fallible K
  decode_keyset_cursor cursor = elim (base64.decode cursor) [
    | none ↦ Fallible.failed "invalid cursor: bad base64 encoding"
    | some bytes ↦ elim (json.from_slice bytes) [
      | none ↦ Fallible.failed "invalid cursor"
      | some key ↦ Fallible.done key
    ]
  ]

  -- `params.cursor.map(decode).transpose()`.
  unfoldable pub decode_cursor : Option String → Fallible (Option K)
  decode_cursor none = Fallible.done none
  decode_cursor (some c) = elim (decode_keyset_cursor c) [
    | Fallible.failed msg ↦ Fallible.failed msg
    | Fallible.done k ↦ Fallible.done (some k)
  ]

  -- The cursor of the last item; none is the panic of `expect`.
  abbrev pub cursor_of {ℓ} : {T : Type ℓ} → (T → K) → Option T → Option String
  cursor_of key_fn none = none
  cursor_of key_fn (some t) = some (encode_keyset_cursor (key_fn t))

  -- None is a panic.
  unfoldable pub paginate {ℓ} :
      {T : Type ℓ} → List T → ℤ → (T → K) → Option (List T × Option String)
  paginate items limit key_fn =
      if ltb_ℤ limit (pos (length items))
      then (let page = take (as_usize limit) items in
          elim (cursor_of key_fn (last? page)) [ none ↦ none | some c ↦ some (page, some c) ])
      else some (items, none)

-- The order of a list: `lt a b` when the row of `a` comes before that of `b`.
pub record KeyOrder (K : Type 0) : Type 0 where
  pub lt : K → K → Bool
  pub lt_asym : (a b : K) → lt a b ≡ true → lt b a ≡ false
  pub lt_trans : (a b c : K) → lt a b ≡ true → lt b c ≡ true → lt a c ≡ true
  pub not_lt_trans : (a b c : K) → lt b a ≡ false → lt c b ≡ false → lt c a ≡ false

module _ {K R : Type 0} ⦃order : KeyOrder K⦄ (key : R → K) where
  abbrev pub in_order : R → R → Bool
  in_order a b = not (order.lt (key b) (key a))

  -- `($c IS NULL OR key > $c)`, in the direction of the list.
  abbrev pub is_after : Option K → R → Bool
  is_after none row = true
  is_after (some k) row = order.lt k (key row)

  -- SELECT … WHERE keep AND after the cursor ORDER BY key LIMIT n.
  unfoldable pub select_after : (R → Bool) → Option K → ℕ → List R → List R
  select_after keep cursor n rows =
      take n (sort_by in_order (filter_by (λ r. keep r && is_after cursor r) rows))

  -- What the list handlers share: the limit, the cursor, the check of the coin, the read and the
  -- page.
  unfoldable pub list_rows :
      ⦃base64 : Base64⦄ ⦃json : Json K⦄
      → ApiResult (Unit {0})
      → (R → Bool)
      → List R
      → Option ℤ
      → Option String
      → ApiResult (Option (List R × Option String))
  list_rows check keep rows limit_param cursor_param = do
    limit ← bad_request_of (validate_limit limit_param)
    cursor ← bad_request_of (decode_cursor cursor_param)
    _ ← check
    ApiResult.ok (paginate (select_after keep cursor (pos_part limit + 1) rows) limit key)
