-- ===== src/Prelude/Lists.antt =====
-- Lists measured and cut by native numbers, predicates over lists by recursion, and the list
-- functions of the source that run in a test.
use Prim.Native.Nat.{◌≤◌, ℕ, zero, suc, ◌+◌, min}
use mathlib.Core.Path.{◌≡◌, refl, ap, subst}
use mathlib.Core.Bool.{Bool, false, ◌||◌}
use mathlib.Core.List.{List, [], ◌∷◌, ◌++◌, map}
use mathlib.Core.Option.{Option, none, some}
use mathlib.Core.Logic.{◌⊎◌, inl, inr}
use native.Mathlib.Omega.{arith}
use crypto_collector.Prelude.Tests.{if◌then◌else◌}

module _ {ℓ} {A : Type ℓ} where
  abbrev pub length : List A → ℕ
  length [] = 0
  length (x ∷ xs) = suc (length xs)

  abbrev pub take : ℕ → List A → List A
  take zero xs = []
  take (suc n) [] = []
  take (suc n) (x ∷ xs) = x ∷ take n xs

  abbrev pub last? : List A → Option A
  last? [] = none
  last? (x ∷ []) = some x
  last? (x ∷ y ∷ ys) = last? (y ∷ ys)

  -- `Iterator::filter` with a Boolean test.
  abbrev pub filter_by : (A → Bool) → List A → List A
  filter_by p [] = []
  filter_by p (x ∷ xs) = let rest = filter_by p xs in if p x then x ∷ rest else rest

  abbrev pub any : (A → Bool) → List A → Bool
  any p [] = false
  any p (x ∷ xs) = p x || any p xs

  abbrev pub All {κ} : (A → Type κ) → List A → Type κ
  All P [] = Unit
  All P (x ∷ xs) = P x × All P xs

  pub append_empty : (xs : List A) → xs ≡ xs ++ []
  append_empty [] = refl
  append_empty (x ∷ xs) = ap (λ t. x ∷ t) (append_empty xs)

  pub append_single : (xs ys : List A) (x : A) → (xs ++ x ∷ []) ++ ys ≡ xs ++ x ∷ ys
  append_single [] ys x = refl
  append_single (y ∷ xs) ys x = ap (λ t. y ∷ t) (append_single xs ys x)

  pub any-append : (p : A → Bool) (xs ys : List A) → any p (xs ++ ys) ≡ (any p xs || any p ys)
  any-append p [] ys = refl
  any-append p (x ∷ xs) ys = ground (arith, any-append p xs ys)

  pub length-append : (xs ys : List A) → length (xs ++ ys) ≡ length xs + length ys
  length-append [] ys = omega arith
  length-append (x ∷ xs) ys = omega (arith, length-append xs ys)

  pub length-take : (n : ℕ) (xs : List A) → length (take n xs) ≡ min n (length xs)
  length-take zero xs = omega arith
  length-take (suc n) [] = omega arith
  length-take (suc n) (x ∷ xs) = omega (arith, length-take n xs)

  pub take_of_short : (n : ℕ) (xs : List A) → length xs ≤ n → take n xs ≡ xs
  take_of_short zero [] h = refl
  take_of_short zero (x ∷ xs) h = absurd (omega arith)
  take_of_short (suc n) [] h = refl
  take_of_short (suc n) (x ∷ xs) h = ap (λ t. x ∷ t) (take_of_short n xs (omega arith))

  pub take-take : (n m : ℕ) (xs : List A) → n ≤ m → take n (take m xs) ≡ take n xs
  take-take zero m xs h = refl
  take-take (suc n) zero xs h = absurd (omega arith)
  take-take (suc n) (suc m) [] h = refl
  take-take (suc n) (suc m) (x ∷ xs) h = ap (λ t. x ∷ t) (take-take n m xs (omega arith))

  pub All-append {κ} : (P : A → Type κ) (xs ys : List A) → All P xs → All P ys → All P (xs ++ ys)
  All-append P [] ys h k = k
  All-append P (x ∷ xs) ys h k = (h.0, All-append P xs ys h.1 k)

  pub All-take {κ} : (P : A → Type κ) (n : ℕ) (xs : List A) → All P xs → All P (take n xs)
  All-take P zero xs h = tt
  All-take P (suc n) [] h = tt
  All-take P (suc n) (x ∷ xs) h = (h.0, All-take P n xs h.1)

  pub All-last {κ} : (P : A → Type κ) (xs : List A) {x : A} → All P xs → last? xs ≡ some x → P x
  All-last P [] h e = absurd (cc)
  All-last P (y ∷ []) h e = subst P (cc) h.0
  All-last P (y ∷ z ∷ ys) h e = All-last P (z ∷ ys) h.1 e

  -- What holds of all elements holds of the one in the middle.
  pub All-middle {κ} :
      (P : A → Type κ) (xs : List A) (y : A) (ys : List A) → All P (xs ++ y ∷ ys) → P y
  All-middle P [] y ys h = h.0
  All-middle P (x ∷ xs) y ys h = All-middle P xs y ys h.1

  pub All-map {κ μ} :
      (P : A → Type κ) (Q : A → Type μ) (f : (x : A) → P x → Q x) (xs : List A)
      → All P xs
      → All Q xs
  All-map P Q f [] h = tt
  All-map P Q f (x ∷ xs) h = (f x h.0, All-map P Q f xs h.1)

-- `gap` lies between neighbours, and the first comes at `from` or later.
abbrev pub Spaced : ℕ → ℕ → List ℕ → Type 0
Spaced gap from [] = Unit {0}
Spaced gap from (a ∷ rest) = (from ≤ a) × Spaced gap (a + gap) rest

-- An element of the list.
abbrev pub Elem : {A : Type 0} → A → List A → Type 0
Elem v [] = ⊥
Elem v (x ∷ xs) = (x ≡ v) ⊎ Elem v xs

pub Elem-map : {A B : Type 0} (f : A → B) (v : A) (xs : List A) → Elem v xs → Elem (f v) (map f xs)
Elem-map f v [] h = elim h [ ]
Elem-map f v (x ∷ xs) (inl here) = inl (ap f here)
Elem-map f v (x ∷ xs) (inr there) = inr (Elem-map f v xs there)

pub Elem-of_map :
    {A B : Type 0} (f : A → B) (y : B) (xs : List A)
    → Elem y (map f xs)
    → (x : A) × Elem x xs × (f x ≡ y)
Elem-of_map f y [] h = elim h [ ]
Elem-of_map f y (x ∷ xs) (inl here) = (x, inl refl, here)
Elem-of_map f y (x ∷ xs) (inr there) = let (v, e, h) = Elem-of_map f y xs there in (v, inr e, h)

pub All-Elem : {A : Type 0} (P : A → Type 0) (v : A) (xs : List A) → All P xs → Elem v xs → P v
All-Elem P v [] h e = elim e [ ]
All-Elem P v (x ∷ xs) h (inl here) = subst P here h.0
All-Elem P v (x ∷ xs) h (inr there) = All-Elem P v xs h.1 there

-- A predicate on the image of a map.
pub All-of_image :
    {A B : Type 0} (f : A → B) (P : B → Type 0) (xs : List A)
    → All P (map f xs)
    → All (λ x. P (f x)) xs
All-of_image f P [] h = tt
All-of_image f P (x ∷ xs) h = (h.0, All-of_image f P xs h.1)

pub All-image :
    {A B : Type 0} (f : A → B) (P : B → Type 0) (xs : List A)
    → All (λ x. P (f x)) xs
    → All P (map f xs)
All-image f P [] h = tt
All-image f P (x ∷ xs) h = (h.0, All-image f P xs h.1)
