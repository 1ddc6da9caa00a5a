-- ===== src/Prelude/Sort.antt =====
-- Stable sorts of lists by a Boolean order, and what they keep.
use mathlib.Core.Path.{◌≡◌, refl, ap, ◌∙◌}
use mathlib.Core.Bool.{Bool, true, false, ◌||◌}
use Prim.Native.Nat.{ℕ, zero, suc}
use mathlib.Core.List.{List, [], ◌∷◌, ◌++◌, map}
use mathlib.Core.Option.{Option, none, some}
use mathlib.Core.Logic.{inl, inr}
use native.Mathlib.Omega.{arith}
use crypto_collector.Prelude.Tests.{if◌then◌else◌, Bool-cases}
use crypto_collector.Prelude.Lists.{any, filter_by, take, All, All-map}
use crypto_collector.Prelude.Least.{if_of_both, if_of_cases}

module _ {ℓ} {A : Type ℓ} where
  -- A stable sort by a total order, as `sort_by_key` makes it.
  abbrev pub insert_by : (A → A → Bool) → A → List A → List A
  insert_by le x [] = x ∷ []
  insert_by le x (y ∷ ys) = let rest = insert_by le x ys in if le x y then x ∷ y ∷ ys else y ∷ rest

  unfoldable pub sort_by : (A → A → Bool) → List A → List A
  sort_by le [] = []
  sort_by le (x ∷ xs) = insert_by le x (sort_by le xs)

  -- The first element that passes a test.
  abbrev pub find_by : (A → Bool) → List A → Option A
  find_by p [] = none
  find_by p (x ∷ xs) = if p x then some x else find_by p xs

  find_by-insert :
      (le : A → A → Bool) (p : A → Bool)
      → ((x y : A) → p x ≡ true → p y ≡ true → le x y ≡ true)
      → (x : A) (xs : List A)
      → find_by p (insert_by le x xs) ≡ (if p x then some x else find_by p xs)
  find_by-insert le p same x [] = refl
  find_by-insert le p same x (y ∷ ys) = ground (arith, same x y, find_by-insert le p same x ys)

  -- A stable sort keeps the first element that passes a test which ties all that pass it.
  pub find_by-sort_by :
      (le : A → A → Bool) (p : A → Bool)
      → ((x y : A) → p x ≡ true → p y ≡ true → le x y ≡ true)
      → (xs : List A) → find_by p (sort_by le xs) ≡ find_by p xs
  unfolding sort_by
  find_by-sort_by le p same [] = refl
  find_by-sort_by le p same (x ∷ xs) =
      ground (arith, find_by-insert le p same x (sort_by le xs), find_by-sort_by le p same xs)

  any-insert_by :
      (p : A → Bool) (le : A → A → Bool) (x : A) (xs : List A)
      → any p (insert_by le x xs) ≡ (p x || any p xs)
  any-insert_by p le x [] = refl
  any-insert_by p le x (y ∷ ys) = ground (arith, any-insert_by p le x ys)

  pub any-sort_by :
      (p : A → Bool) (le : A → A → Bool) (xs : List A) → any p (sort_by le xs) ≡ any p xs
  unfolding sort_by
  any-sort_by p le [] = refl
  any-sort_by p le (x ∷ xs) =
      ground (arith, any-insert_by p le x (sort_by le xs), any-sort_by p le xs)

  pub All-insert_by {κ} :
      (P : A → Type κ) (le : A → A → Bool) (x : A) (xs : List A)
      → P x
      → All P xs
      → All P (insert_by le x xs)
  All-insert_by P le x [] h k = (h, tt)
  All-insert_by P le x (y ∷ ys) h k =
      if_of_both (All P) (le x y) (x ∷ y ∷ ys) (y ∷ insert_by le x ys) (h, k)
        (k.0, All-insert_by P le x ys h k.1)

  pub All-sort_by {κ} :
      (P : A → Type κ) (le : A → A → Bool) (xs : List A) → All P xs → All P (sort_by le xs)
  unfolding sort_by
  All-sort_by P le [] k = tt
  All-sort_by P le (x ∷ xs) k = All-insert_by P le x (sort_by le xs) k.0 (All-sort_by P le xs k.1)

  -- Neighbours are in order.
  abbrev pub IsSorted : (A → A → Bool) → List A → Type 0
  IsSorted le [] = Unit {0}
  IsSorted le (x ∷ xs) = All {A = A} (λ y. le x y ≡ true) xs × IsSorted le xs

  insert_by-IsSorted :
      (le : A → A → Bool)
      → ((x y : A) → le x y ≡ false → le y x ≡ true)
      → ((x y z : A) → le x y ≡ true → le y z ≡ true → le x z ≡ true)
      → (x : A) (xs : List A) → IsSorted le xs
      → IsSorted le (insert_by le x xs)
  insert_by-IsSorted le total trans x [] s = (tt, tt)
  insert_by-IsSorted le total trans x (y ∷ ys) s =
      let after : le x y ≡ true → IsSorted le (x ∷ y ∷ ys) = λ h. (
        (h, All-map (λ z. le y z ≡ true) (λ z. le x z ≡ true) (λ z k. trans x y z h k) ys s.0),
        s,
      ) in
      let before : le x y ≡ false → IsSorted le (y ∷ insert_by le x ys) = λ h. (
        All-insert_by (λ z. le y z ≡ true) le x ys (total x y h) s.0,
        insert_by-IsSorted le total trans x ys s.1,
      ) in
      if_of_cases (IsSorted le) (le x y) (x ∷ y ∷ ys) (y ∷ insert_by le x ys) after before

  -- The sort puts every element before all that do not precede it.
  pub sort_by-IsSorted :
      (le : A → A → Bool)
      → ((x y : A) → le x y ≡ false → le y x ≡ true)
      → ((x y z : A) → le x y ≡ true → le y z ≡ true → le x z ≡ true)
      → (xs : List A) → IsSorted le (sort_by le xs)
  unfolding sort_by
  sort_by-IsSorted le total trans [] = tt
  sort_by-IsSorted le total trans (x ∷ xs) =
      insert_by-IsSorted le total trans x (sort_by le xs) (sort_by-IsSorted le total trans xs)

  insert_by-least :
      (le : A → A → Bool) (x : A) (xs : List A)
      → All (λ y. le x y ≡ true) xs
      → insert_by le x xs ≡ x ∷ xs
  insert_by-least le x [] h = refl
  insert_by-least le x (y ∷ ys) h = ground (arith, h.0)

  -- A list in order is sorted already.
  pub sort_by_of_IsSorted : (le : A → A → Bool) (xs : List A) → IsSorted le xs → sort_by le xs ≡ xs
  unfolding sort_by
  sort_by_of_IsSorted le [] s = refl
  sort_by_of_IsSorted le (x ∷ xs) s =
      ap (insert_by le x) (sort_by_of_IsSorted le xs s.1) ∙ insert_by-least le x xs s.0

  pub All-filter_by {κ} :
      (P : A → Type κ) (p : A → Bool) (xs : List A) → All P xs → All P (filter_by p xs)
  All-filter_by P p [] h = tt
  All-filter_by P p (x ∷ xs) h =
      if_of_both (All P) (p x) (x ∷ filter_by p xs) (filter_by p xs) (h.0, All-filter_by P p xs h.1)
        (All-filter_by P p xs h.1)

  pub filter_by-holds : (p : A → Bool) (xs : List A) → All (λ x. p x ≡ true) (filter_by p xs)
  filter_by-holds p [] = tt
  filter_by-holds p (x ∷ xs) =
      if_of_cases (All (λ x. p x ≡ true)) (p x) (x ∷ filter_by p xs) (filter_by p xs)
        (λ h. (h, filter_by-holds p xs)) (λ h. filter_by-holds p xs)

  module _ (le : A → A → Bool) (p : A → Bool) (total : (x y : A) → le x y ≡ false → le y x ≡ true)
      (trans : (x y z : A) → le x y ≡ true → le y z ≡ true → le x z ≡ true) where
    filter_by-insert_by :
        (x : A) (xs : List A)
        → IsSorted le xs
        → filter_by p (insert_by le x xs)
          ≡ (if p x then insert_by le x (filter_by p xs) else filter_by p xs)
    filter_by-insert_by x [] s = refl
    filter_by-insert_by x (y ∷ ys) s = elim (Bool-cases (le x y)) [
      | inl before ↦
          let above : All (λ z. le x z ≡ true) (y ∷ ys) = (
            before,
            All-map (λ z. le y z ≡ true) (λ z. le x z ≡ true) (λ z k. trans x y z before k) ys s.0,
          ) in
          ground (
            arith,
            insert_by-least le x (filter_by p (y ∷ ys))
                (All-filter_by (λ z. le x z ≡ true) p (y ∷ ys) above),
          )
      | inr after ↦ ground (arith, filter_by-insert_by x ys s.1)
    ]

    -- A stable sort commutes with a filter.
    pub filter_by-sort_by :
        (xs : List A) → filter_by p (sort_by le xs) ≡ sort_by le (filter_by p xs)
    unfolding sort_by
    filter_by-sort_by [] = refl
    filter_by-sort_by (x ∷ xs) = ground (
      arith,
      filter_by-insert_by x (sort_by le xs) (sort_by-IsSorted le total trans xs),
      filter_by-sort_by xs,
    )

module _ {A : Type 0} where
  pub filter_by-append :
      (p : A → Bool) (xs ys : List A) → filter_by p (xs ++ ys) ≡ filter_by p xs ++ filter_by p ys
  filter_by-append p [] ys = refl
  filter_by-append p (x ∷ xs) ys = ground (arith, filter_by-append p xs ys)

  -- A filter that keeps all that is there, or nothing of it.
  pub filter_by_of_All :
      (p : A → Bool) (xs : List A) → All (λ x. p x ≡ true) xs → filter_by p xs ≡ xs
  filter_by_of_All p [] h = refl
  filter_by_of_All p (x ∷ xs) h = ground (arith, h.0, filter_by_of_All p xs h.1)

  pub filter_by_of_none :
      (p : A → Bool) (xs : List A) → All (λ x. p x ≡ false) xs → filter_by p xs ≡ []
  filter_by_of_none p [] h = refl
  filter_by_of_none p (x ∷ xs) h = ground (arith, h.0, filter_by_of_none p xs h.1)

  -- Two tests that agree on the list.
  pub filter_by-agree :
      (p q : A → Bool) (xs : List A) → All (λ x. p x ≡ q x) xs → filter_by p xs ≡ filter_by q xs
  filter_by-agree p q [] h = refl
  filter_by-agree p q (x ∷ xs) h = ground (arith, h.0, filter_by-agree p q xs h.1)

  module _ {B : Type 0} (f : A → B) (le : B → B → Bool) where
    map-insert_by :
        (x : A) (xs : List A)
        → map f (insert_by (λ a b. le (f a) (f b)) x xs) ≡ insert_by le (f x) (map f xs)
    map-insert_by x [] = refl
    map-insert_by x (y ∷ ys) = ground (arith, map-insert_by x ys)

    -- A stable sort by an order of images commutes with the map.
    pub map-sort_by :
        (xs : List A) → map f (sort_by (λ a b. le (f a) (f b)) xs) ≡ sort_by le (map f xs)
    unfolding sort_by
    map-sort_by [] = refl
    map-sort_by (x ∷ xs) =
        map-insert_by x (sort_by (λ a b. le (f a) (f b)) xs)
        ∙ ap (insert_by le (f x)) (map-sort_by xs)

  pub map-take :
      {B : Type 0} (f : A → B) (n : ℕ) (xs : List A) → map f (take n xs) ≡ take n (map f xs)
  map-take f zero xs = refl
  map-take f (suc n) [] = refl
  map-take f (suc n) (x ∷ xs) = ap (λ t. f x ∷ t) (map-take f n xs)
