-- ===== src/Api/Cursor/Walk.antt =====
-- A client that follows the cursors of a list, page by page.
use crypto_collector.Prelude.{
  ℕ, zero, suc, ◌<◌, ◌≤◌, ◌≡◌, refl, sym, ap, subst, true, ◌∙◌, String, Bool, Option, some, none,
  List, [], ◌∷◌, ◌++◌, arith, length, take, last?, filter_by, append_single, length-append,
  take_of_short, take-take, length-take,
}
use mathlib.Core.Path.{fun_ext}
use mathlib.Core.List.{append_assoc}
use native.Mathlib.Decide.{dec_lt}
use crypto_collector.Prelude.Int.{ℤ, pos}
use crypto_collector.Api.{ApiResult, Fallible}
use crypto_collector.Api.Cursor.{
  Base64, Json, KeyOrder, is_after, list_rows, encode_keyset_cursor, validate_limit, decode_cursor,
  paginate,
}
use crypto_collector.Api.Cursor.Codec.{
  split_page, decode_cursor-encode, paginate_short, paginate_long,
}
use crypto_collector.Api.Cursor.Order.{
  AreApart, IsAscending, all_rows, all_rows-IsAscending, select_after_lem, filter_by-behind,
}

-- A filter that keeps everything.
pub filter_by-true : {R : Type 0} (xs : List R) → filter_by (λ x. true) xs ≡ xs
filter_by-true [] = refl
filter_by-true (x ∷ xs) = ap (λ t. x ∷ t) (filter_by-true xs)

-- The rows of a page and of those after it; none is an error, a panic or the end of the fuel.
abbrev pub gather :
    {R : Type 0}
    → (String → Option (List R))
    → ApiResult (Option (List R × Option String))
    → Option (List R)
gather rest (ApiResult.err e) = none
gather rest (ApiResult.ok none) = none
gather rest (ApiResult.ok (some (items, none))) = some items
gather rest (ApiResult.ok (some (items, some c))) = elim (rest c) [
  | none ↦ none
  | some more ↦ some (items ++ more)
]

unfoldable pub walk_pages :
    {R : Type 0}
    → ℕ
    → (Option String → ApiResult (Option (List R × Option String)))
    → Option String
    → Option (List R)
walk_pages zero read cursor = none
walk_pages (suc fuel) read cursor = gather (λ c. walk_pages fuel read (some c)) (read cursor)

-- Readers that agree on the first page and on every cursor give the same walk.
pub walk_pages-agree :
    {R : Type 0} (read other : Option String → ApiResult (Option (List R × Option String)))
    → ((c : String) → read (some c) ≡ other (some c))
    → (fuel : ℕ) (cursor : Option String) → read cursor ≡ other cursor
    → walk_pages fuel read cursor ≡ walk_pages fuel other cursor
unfolding walk_pages
walk_pages-agree read other agree zero cursor h = refl
walk_pages-agree read other agree (suc fuel) cursor h =
    ap (λ r. gather (λ c. walk_pages fuel read (some c)) r) h
    ∙ ap (λ next. gather next (other cursor))
        (fun_ext (λ c. walk_pages-agree read other agree fuel (some c) (agree c)))

module _ {K R : Type 0} ⦃base64 : Base64⦄ ⦃json : Json K⦄ (key : R → K) (m : ℕ) where
  pub page_short :
      (rest : List R)
      → length rest ≤ suc m
      → paginate (take (suc (suc m)) rest) (pos (suc m)) key ≡ some (rest, none)
  page_short rest h =
      rw (take_of_short (suc (suc m)) rest (omega arith)) (paginate_short key (suc m) rest h)

  page_long :
      (pre : List R) (x : R) (rest : List R)
      → suc m < length rest
      → take (suc m) rest ≡ pre ++ x ∷ []
      → last? (take (suc m) rest) ≡ some x
      → paginate (take (suc (suc m)) rest) (pos (suc m)) key
        ≡ some (pre ++ x ∷ [], some (encode_keyset_cursor (key x)))
  page_long pre x rest h front end =
      let same : take (suc m) (take (suc (suc m)) rest) ≡ take (suc m) rest =
        take-take (suc m) (suc (suc m)) rest (omega arith) in
      paginate_long key (suc m) pre x (take (suc (suc m)) rest)
        (omega (arith, length-take (suc (suc m)) rest)) (same ∙ front) (ap last? same ∙ end)

module _ {K R : Type 0} ⦃base64 : Base64⦄ ⦃json : Json K⦄ ⦃order : KeyOrder K⦄ (key : R → K)
    (check : ApiResult (Unit {0})) (keep : R → Bool) (rows : List R) (limit_param : Option ℤ)
    (m : ℕ) (accepted : validate_limit limit_param ≡ Fallible.done (pos (suc m)))
    (passes : check ≡ ApiResult.ok tt) where
  -- A page read behind some rows, where `rest` lies behind them.
  pub page_at :
      (cursor_param : Option String) (cursor : Option K) (rest : List R)
      → decode_cursor cursor_param ≡ Fallible.done cursor
      → filter_by (is_after key cursor) (all_rows key keep rows) ≡ rest
      → list_rows key check keep rows limit_param cursor_param
        ≡ ApiResult.ok (paginate (take (suc (suc m)) rest) (pos (suc m)) key)
  unfolding list_rows
  page_at cursor_param cursor rest d f = ground (
    arith,
    accepted,
    d,
    passes,
    select_after_lem key keep cursor (suc (suc m)) rows,
    ap (take (suc (suc m))) f,
  )

  module _ (apart : AreApart key (filter_by keep rows)) where
    walk_rest :
        (fuel : ℕ) (cursor_param : Option String) (cursor : Option K) (rest : List R)
        → decode_cursor cursor_param ≡ Fallible.done cursor
        → (before : List R) → all_rows key keep rows ≡ before ++ rest
        → filter_by (is_after key cursor) (all_rows key keep rows) ≡ rest
        → length rest < fuel
        → walk_pages fuel (list_rows key check keep rows limit_param) cursor_param ≡ some rest
    unfolding walk_pages
    walk_rest zero cursor_param cursor rest d before e f h = absurd (omega arith)
    walk_rest (suc fuel) cursor_param cursor rest d before e f h =
        elim (dec_lt (suc m) (length rest)) [
          | no few ↦
              ground
                (arith, page_at cursor_param cursor rest d f, page_short key m rest (omega arith))
          | yes many ↦
              let (pre, x, behind, whole, front, end) = split_page m rest many in
              let split : all_rows key keep rows ≡ (before ++ pre) ++ x ∷ behind =
                e ∙ ap (λ t. before ++ t) whole ∙ sym (append_assoc before pre (x ∷ behind)) in
              let ascending : IsAscending key ((before ++ pre) ++ x ∷ behind) =
                subst (IsAscending key) split (all_rows-IsAscending key keep rows apart) in
              let after : filter_by (is_after key (some (key x))) (all_rows key keep rows)
                  ≡ behind =
                ap (filter_by (is_after key (some (key x)))) split
                ∙ filter_by-behind key (before ++ pre) x behind ascending in
              let shorter : length behind < fuel =
                omega (arith, ap length whole, length-append {0} pre (x ∷ behind)) in
              ground (
                arith,
                page_at cursor_param cursor rest d f,
                page_long key m pre x rest many front end,
                walk_rest fuel (some (encode_keyset_cursor (key x))) (some (key x)) behind
                    (decode_cursor-encode (key x)) ((before ++ pre) ++ x ∷ [])
                    (split ∙ sym (append_single (before ++ pre) behind x)) after shorter,
                append_single pre behind x,
                whole,
              )
        ]

    -- A client that follows the cursors from the first page on, with any accepted limit, gets every
    -- row that the list keeps, once and in order: no row is lost or repeated at the edge of a page,
    -- if no two of the rows that it keeps have the same key. One more page than rows is enough, and no page panics.
    pub walk_pages-all_rows :
        (fuel : ℕ)
        → length (all_rows key keep rows) < fuel
        → walk_pages fuel (list_rows key check keep rows limit_param) none
          ≡ some (all_rows key keep rows)
    unfolding decode_cursor
    walk_pages-all_rows fuel h =
        walk_rest fuel none none (all_rows key keep rows) refl [] refl
          (filter_by-true (all_rows key keep rows)) h
