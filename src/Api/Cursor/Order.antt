-- ===== src/Api/Cursor/Order.antt =====
-- The read behind a cursor in a list whose rows have different keys.
use crypto_collector.Prelude.{
  ℕ, zero, suc, ◌≤◌, length, ◌≡◌, refl, sym, ap, Bool, true, false, ◌&&◌, ◌||◌, Bool-cases, Option,
  some, List, [], ◌∷◌, ◌++◌, inl, inr, arith, take, filter_by, sort_by, All, All-map, All-sort_by,
  insert_by, All-insert_by, filter_by-sort_by, if_of_cases, All-middle,
}
use crypto_collector.Api.Cursor.{KeyOrder, in_order, is_after, select_after}

-- Two filters in turn.
pub filter_by-and {ℓ} :
    {A : Type ℓ} (p q : A → Bool) (xs : List A)
    → filter_by (λ x. p x && q x) xs ≡ filter_by q (filter_by p xs)
filter_by-and p q [] = refl
filter_by-and p q (x ∷ xs) = ground (arith, filter_by-and p q xs)

module _ {K R : Type 0} ⦃order : KeyOrder K⦄ (key : R → K) where
  -- The keys of two rows differ.
  abbrev pub apart : R → R → Bool
  apart a b = order.lt (key a) (key b) || order.lt (key b) (key a)

  abbrev pub AreApart : List R → Type 0
  AreApart [] = Unit {0}
  AreApart (x ∷ xs) = All {A = R} (λ y. apart x y ≡ true) xs × AreApart xs

  -- Every row comes strictly before all behind it.
  abbrev pub IsAscending : List R → Type 0
  IsAscending [] = Unit {0}
  IsAscending (x ∷ xs) = All {A = R} (λ y. order.lt (key x) (key y) ≡ true) xs × IsAscending xs

  insert_by-IsAscending :
      (x : R) (xs : List R)
      → All {A = R} (λ y. apart x y ≡ true) xs
      → IsAscending xs
      → IsAscending (insert_by (in_order key) x xs)
  insert_by-IsAscending x [] a s = (tt, tt)
  insert_by-IsAscending x (y ∷ ys) a s =
      let first : in_order key x y ≡ true → IsAscending (x ∷ y ∷ ys) = λ h.
        let below : order.lt (key x) (key y) ≡ true = ground (arith, a.0) in
        (
          (
            below,
            All-map (λ z. order.lt (key y) (key z) ≡ true) (λ z. order.lt (key x) (key z) ≡ true)
                (λ z k. order.lt_trans (key x) (key y) (key z) below k) ys s.0,
          ),
          s,
        ) in
      let after : in_order key x y ≡ false → IsAscending (y ∷ insert_by (in_order key) x ys) = λ h.
        (
          All-insert_by (λ z. order.lt (key y) (key z) ≡ true) (in_order key) x ys (ground arith)
              s.0,
          insert_by-IsAscending x ys a.1 s.1,
        ) in
      if_of_cases IsAscending (in_order key x y) (x ∷ y ∷ ys) (y ∷ insert_by (in_order key) x ys)
        first after

  pub sort_by-IsAscending : (xs : List R) → AreApart xs → IsAscending (sort_by (in_order key) xs)
  unfolding sort_by
  sort_by-IsAscending [] a = tt
  sort_by-IsAscending (x ∷ xs) a =
      insert_by-IsAscending x (sort_by (in_order key) xs)
        (All-sort_by (λ y. apart x y ≡ true) (in_order key) xs a.0) (sort_by-IsAscending xs a.1)

  -- The rows that a read without a cursor and without a limit gives.
  abbrev pub all_rows : (R → Bool) → List R → List R
  all_rows keep rows = sort_by (in_order key) (filter_by keep rows)

  pub all_rows-IsAscending :
      (keep : R → Bool) (rows : List R)
      → AreApart (filter_by keep rows)
      → IsAscending (all_rows keep rows)
  all_rows-IsAscending keep rows a = sort_by-IsAscending (filter_by keep rows) a

  in_order_total : (a b : R) → in_order key a b ≡ false → in_order key b a ≡ true
  in_order_total a b h = ground (arith, order.lt_asym (key b) (key a))

  in_order_trans :
      (a b c : R) → in_order key a b ≡ true → in_order key b c ≡ true → in_order key a c ≡ true
  in_order_trans a b c h k = ground (arith, order.not_lt_trans (key a) (key b) (key c))

  pub all_rows-and :
      (keep p : R → Bool) (rows : List R)
      → all_rows (λ r. keep r && p r) rows ≡ filter_by p (all_rows keep rows)
  all_rows-and keep p rows =
      rw (filter_by-and keep p rows) (
        sym
          (filter_by-sort_by (in_order key) p in_order_total in_order_trans (filter_by keep rows)))

  pub select_after_lem :
      (keep : R → Bool) (cursor : Option K) (n : ℕ) (rows : List R)
      → select_after key keep cursor n rows
        ≡ take n (filter_by (is_after key cursor) (all_rows keep rows))
  unfolding select_after
  select_after_lem keep cursor n rows = ap (take n) (all_rows-and keep (is_after key cursor) rows)

  irreflexive : (x : R) → order.lt (key x) (key x) ≡ false
  irreflexive x = ground (arith, order.lt_asym (key x) (key x))

  filter_by-below :
      (k : K) (xs : List R)
      → All {A = R} (λ y. order.lt k (key y) ≡ true) xs
      → filter_by (is_after key (some k)) xs ≡ xs
  filter_by-below k [] a = refl
  filter_by-below k (x ∷ xs) a = ground (arith, filter_by-below k xs)

  -- Behind the key of a row come exactly the rows behind it.
  pub filter_by-behind :
      (pre : List R) (x : R) (rest : List R)
      → IsAscending (pre ++ x ∷ rest)
      → filter_by (is_after key (some (key x))) (pre ++ x ∷ rest) ≡ rest
  filter_by-behind [] x rest s = ground (arith, irreflexive x, filter_by-below (key x) rest s.0)
  filter_by-behind (y ∷ pre) x rest s = ground (
    arith,
    order.lt_asym (key y) (key x)
        (All-middle (λ z. order.lt (key y) (key z) ≡ true) pre x rest s.0),
    filter_by-behind pre x rest s.1,
  )

  none_pass :
      (p : R → Bool)
      → ((x y : R) → order.lt (key x) (key y) ≡ true → p y ≡ true → p x ≡ true)
      → (x : R) (xs : List R) → p x ≡ false
      → All {A = R} (λ y. order.lt (key x) (key y) ≡ true) xs
      → filter_by p xs ≡ []
  none_pass p closed x [] h a = refl
  none_pass p closed x (y ∷ ys) h a = ground (arith, closed x y a.0, none_pass p closed x ys h a.1)

  -- A filter that keeps a row with every row behind it keeps a prefix.
  pub take-filter_by :
      (p : R → Bool)
      → ((x y : R) → order.lt (key x) (key y) ≡ true → p y ≡ true → p x ≡ true)
      → (n : ℕ) (xs : List R) → IsAscending xs
      → n ≤ length (filter_by p xs)
      → take n (filter_by p xs) ≡ take n xs
  take-filter_by p closed zero xs s h = refl
  take-filter_by p closed (suc n) [] s h = refl
  take-filter_by p closed (suc n) (x ∷ xs) s h = elim (Bool-cases (p x)) [
    | inl keeps ↦ ground (arith, take-filter_by p closed n xs s.1)
    | inr drops ↦ absurd (ground (arith, none_pass p closed x xs drops s.0))
  ]
