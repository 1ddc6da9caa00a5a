-- ===== src/Database/Coverage/Rows.antt =====
-- Firsts and filters of the rows that db/candles.rs seeks.
use crypto_collector.Prelude.{
  ◌≤◌, ◌<◌, ◌⊎◌, ◌≡◌, refl, sym, subst, Bool, true, false, some, none, List, [], ◌∷◌, length,
  if◌then◌else◌, filter_by, arith, inl, inr, Bool-cases, All, Elem, All-map,
}
use crypto_collector.Database.Coverage.{first_by}

module _ {A : Type 0} (before : A → A → Bool)
    (asym : (a b : A) → before a b ≡ true → before b a ≡ false)
    (not_trans : (a b c : A) → before a b ≡ false → before b c ≡ false → before a c ≡ false) where
  -- The first of a list stands in it, and nothing precedes it.
  pub first_by_lem :
      (xs : List A)
      → ((first_by before xs ≡ none) × (xs ≡ []))
        ⊎ ((m : A) × (first_by before xs ≡ some m) × Elem m xs × All (λ x. before x m ≡ false) xs)
  first_by_lem [] = inl (refl, refl)
  first_by_lem (x ∷ xs) = elim (first_by_lem xs) [
    | inl (e, none_left) ↦ inr (
      x,
      ground (arith, e),
      inl refl,
      (ground (arith, asym x x), subst (All (λ y. before y x ≡ false)) (sym none_left) tt),
    )
    | inr (y, e, among, least) ↦ elim (Bool-cases (before y x)) [
      | inl b ↦ inr (y, ground (arith, e, b), inr among, (asym y x b, least))
      | inr b ↦ inr (
        x,
        ground (arith, e, b),
        inl refl,
        (
          ground (arith, asym x x),
          All-map (λ z. before z y ≡ false) (λ z. before z x ≡ false) (λ z k. not_trans z y x k b)
              xs least,
        ),
      )
    ]
  ]

module _ {A : Type 0} where
  pub Elem-filter_by :
      (p : A → Bool) (x : A) (xs : List A) → Elem x xs → p x ≡ true → Elem x (filter_by p xs)
  Elem-filter_by p x [] h k = h
  Elem-filter_by p x (y ∷ xs) (inl e) k =
      let here : p y ≡ true = subst (λ z. p z ≡ true) (sym e) k in rw here (inl e)
  Elem-filter_by p x (y ∷ xs) (inr h) k = elim (Bool-cases (p y)) [
    | inl b ↦ rw b (inr (Elem-filter_by p x xs h k))
    | inr b ↦ rw b (Elem-filter_by p x xs h k)
  ]

  pub Elem-of_filter_by :
      (p : A → Bool) (x : A) (xs : List A) → Elem x (filter_by p xs) → Elem x xs × (p x ≡ true)
  Elem-of_filter_by p x [] h = absurd h
  Elem-of_filter_by p x (y ∷ xs) h = elim (Bool-cases (p y)) [
    | inl b ↦ elim (subst (λ c. Elem x (if c then y ∷ filter_by p xs else filter_by p xs)) b h) [
      | inl e ↦ (inl e, subst (λ z. p z ≡ true) e b)
      | inr k ↦ let (there, holds) = Elem-of_filter_by p x xs k in (inr there, holds)
    ]
    | inr b ↦
        let (there, holds) =
          Elem-of_filter_by p x xs
            (subst (λ c. Elem x (if c then y ∷ filter_by p xs else filter_by p xs)) b h) in
        (inr there, holds)
  ]

  length_narrower :
      (p q : A → Bool)
      → ((x : A) → p x ≡ true → q x ≡ true)
      → (xs : List A) → length (filter_by p xs) ≤ length (filter_by q xs)
  length_narrower p q sub [] = omega arith
  length_narrower p q sub (x ∷ xs) = elim (Bool-cases (p x)) [
    | inl b ↦ rw (b, sub x b) (omega (arith, length_narrower p q sub xs))
    | inr b ↦ elim (Bool-cases (q x)) [
      | inl c ↦ rw (b, c) (omega (arith, length_narrower p q sub xs))
      | inr c ↦ rw (b, c) (length_narrower p q sub xs)
    ]
  ]

  pub length_strictly :
      (p q : A → Bool)
      → ((x : A) → p x ≡ true → q x ≡ true)
      → (m : A) (xs : List A) → Elem m xs
      → q m ≡ true
      → p m ≡ false
      → length (filter_by p xs) < length (filter_by q xs)
  length_strictly p q sub m [] h k n = absurd h
  length_strictly p q sub m (x ∷ xs) (inl e) k n =
      let yes : q x ≡ true = subst (λ z. q z ≡ true) (sym e) k in
      let no : p x ≡ false = subst (λ z. p z ≡ false) (sym e) n in
      rw (yes, no) (omega (arith, length_narrower p q sub xs))
  length_strictly p q sub m (x ∷ xs) (inr h) k n = elim (Bool-cases (p x)) [
    | inl b ↦ rw (b, sub x b) (omega (arith, length_strictly p q sub m xs h k n))
    | inr b ↦ elim (Bool-cases (q x)) [
      | inl c ↦ rw (b, c) (omega (arith, length_strictly p q sub m xs h k n))
      | inr c ↦ rw (b, c) (length_strictly p q sub m xs h k n)
    ]
  ]

pub Elem-short : {A : Type 0} → (x : A) (xs : List A) → length xs ≤ 0 → Elem x xs → ⊥
Elem-short x [] short h = h
Elem-short x (y ∷ xs) short h = omega (arith, short)
