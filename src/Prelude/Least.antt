-- ===== src/Prelude/Least.antt =====
-- `Iterator::min_by_key` and a sort by a key, over lists.
use mathlib.Core.Path.{◌≡◌, subst, refl}
use mathlib.Core.Bool.{Bool, true, false}
use mathlib.Core.List.{List, [], ◌∷◌}
use mathlib.Core.Option.{Option, none, some}
use native.Mathlib.Omega.{arith}
use crypto_collector.Prelude.Tests.{if◌then◌else◌}
use crypto_collector.Prelude.Lists.{All}

module _ {ℓ} {A : Type ℓ} where
  pub if_of_both {κ} : (P : A → Type κ) (b : Bool) (x y : A) → P x → P y → P (if b then x else y)
  if_of_both P true x y h k = h
  if_of_both P false x y h k = k

  pub if_of_cases {κ} :
      (P : A → Type κ) (b : Bool) (x y : A)
      → (b ≡ true → P x)
      → (b ≡ false → P y)
      → P (if b then x else y)
  if_of_cases P true x y h k = h refl
  if_of_cases P false x y h k = k refl

module _ {ℓ} {A : Type ℓ} where
  -- `Iterator::min_by_key`: the first of the least elements.
  abbrev pub least_from : (A → A → Bool) → A → List A → A
  least_from lt best [] = best
  least_from lt best (x ∷ xs) = least_from lt (if lt x best then x else best) xs

  unfoldable pub first_least : (A → A → Bool) → List A → Option A
  first_least lt [] = none
  first_least lt (x ∷ xs) = some (least_from lt x xs)

  module _ {κ} (lt : A → A → Bool) (le : A → A → Type κ)
      (le_of_lt : (a b : A) → lt a b ≡ true → le a b)
      (le_of_not_lt : (a b : A) → lt b a ≡ false → le a b)
      (trans : (a b c : A) → le a b → le b c → le a c) (reflexive : (a : A) → le a a) where
    kept_of_test :
        (best x : A) (b : Bool)
        → lt x best ≡ b
        → le (if b then x else best) best × le (if b then x else best) x
    kept_of_test best x true h = (le_of_lt x best h, reflexive x)
    kept_of_test best x false h = (reflexive best, le_of_not_lt best x h)

    least_from-le :
        (best : A) (xs : List A)
        → le (least_from lt best xs) best × All (le (least_from lt best xs)) xs
    least_from-le best [] = (reflexive best, tt)
    least_from-le best (x ∷ xs) =
        let (kept, others) = least_from-le (if lt x best then x else best) xs in
        let (below_best, below_x) = kept_of_test best x (lt x best) refl in
        (trans _ _ _ kept below_best, (trans _ _ _ kept below_x, others))

    -- The first of the least elements lies below every element.
    pub first_least-le : (xs : List A) {m : A} → first_least lt xs ≡ some m → All (le m) xs
    unfolding first_least
    first_least-le [] h = absurd (ground arith)
    first_least-le (x ∷ xs) {m} h =
        let same : least_from lt x xs ≡ m = ground arith in
        let (a, b) = least_from-le x xs in subst (λ o. All (le o) (x ∷ xs)) same (a, b)

  -- What holds of every element holds of the first of the least.
  All-least_from {κ} :
      (P : A → Type κ) (lt : A → A → Bool) (xs : List A) (best : A)
      → P best
      → All P xs
      → P (least_from lt best xs)
  All-least_from P lt [] best h k = h
  All-least_from P lt (x ∷ xs) best h k =
      All-least_from P lt xs (if lt x best then x else best) (if_of_both P (lt x best) x best k.0 h)
        k.1

  pub All-first_least {κ} :
      (P : A → Type κ) (lt : A → A → Bool) (xs : List A) {m : A}
      → first_least lt xs ≡ some m
      → All P xs
      → P m
  unfolding first_least
  All-first_least P lt [] h k = absurd (ground arith)
  All-first_least P lt (x ∷ xs) {m} h k =
      let same : least_from lt x xs ≡ m = ground arith in
      subst P same (All-least_from P lt xs x k.0 k.1)
