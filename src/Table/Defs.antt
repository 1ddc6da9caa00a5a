-- ===== src/Table/Defs.antt =====
-- Keys with a decidable equality, and tables as association lists over them. `find` reads the row
-- of a key, `update` is an UPDATE of that row that may decline, `upsert` is `entry().or_default()`.
use crypto_collector.Prelude.{
  ℕ, String, Bool, true, Option, some, none, List, [], ◌∷◌, ◌≡◌, ◌↔◌, str_eq, str_eq_iff, ◌==◌,
  ==_iff, if◌then◌else◌,
}

pub record Key {ℓ} (K : Type ℓ) : Type ℓ where
  pub beq : K → K → Bool
  pub beq_iff : (a b : K) → (beq a b ≡ true) ↔ (a ≡ b)

instance abbrev pub string_key : Key String
string_key = record { beq = str_eq; beq_iff = str_eq_iff }

instance abbrev pub nat_key : Key ℕ
nat_key = record { beq = ◌==◌; beq_iff = ==_iff }

module _ {ℓ κ} {K : Type ℓ} {A : Type κ} ⦃k : Key K⦄ where
  unfoldable pub find : K → List (K × A) → Option A
  find q [] = none
  find q ((p, a) ∷ t) = if k.beq p q then some a else find q t

  -- The table after an update, and the new row if the update was made.
  unfoldable pub update : K → (A → Option A) → List (K × A) → List (K × A) × Option A
  update q f [] = ([], none)
  update q f ((p, a) ∷ t) =
      let (t', r) = update q f t in
      if k.beq p q
      then elim (f a) [ none ↦ ((p, a) ∷ t, none) | some b ↦ ((p, b) ∷ t, some b) ]
      else ((p, a) ∷ t', r)

  unfoldable pub upsert : K → A → (A → A) → List (K × A) → List (K × A)
  upsert q d f [] = (q, f d) ∷ []
  upsert q d f ((p, a) ∷ t) = if k.beq p q then (p, f a) ∷ t else (p, a) ∷ upsert q d f t
