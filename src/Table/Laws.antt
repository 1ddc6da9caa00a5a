-- ===== src/Table/Laws.antt =====
-- What can be read from a table after an update.
use mathlib.Core.Option.{get_or}
use crypto_collector.Prelude.{Option, some, none, List, [], ◌∷◌, ◌≡◌, refl, arith, if◌then◌else◌}
use crypto_collector.Table.Defs.{Key, find, update, upsert}

abbrev pub bind {κ} : {A : Type κ} → Option A → (A → Option A) → Option A
bind none f = none
bind (some a) f = f a

-- What an update leaves in a row.
abbrev pub updated {κ} : {A : Type κ} → Option A → (A → Option A) → Option A
updated none f = none
updated (some a) f = elim (f a) [ none ↦ some a | some b ↦ some b ]

module _ {ℓ κ} {K : Type ℓ} {A : Type κ} ⦃k : Key K⦄ where
  pub update-row :
      (q : K) (f : A → Option A) (t : List (K × A)) → (update q f t).1 ≡ bind (find q t) f
  unfolding find update
  update-row q f [] = refl
  update-row q f ((p, a) ∷ t) = ground (arith, update-row q f t)

  pub find-update :
      (q p : K) (f : A → Option A) (t : List (K × A))
      → find p (update q f t).0 ≡ (if k.beq q p then updated (find q t) f else find p t)
  unfolding find update
  find-update q p f [] = ground arith
  find-update q p f ((o, a) ∷ t) =
      ground (arith, k.beq_iff q p, k.beq_iff o p, k.beq_iff o q, find-update q p f t)

  pub find-upsert :
      (q p : K) (d : A) (f : A → A) (t : List (K × A))
      → find p (upsert q d f t) ≡ (if k.beq q p then some (f (get_or (find q t) d)) else find p t)
  unfolding find upsert
  find-upsert q p d f [] = ground (arith, k.beq_iff q p)
  find-upsert q p d f ((o, a) ∷ t) =
      ground (arith, k.beq_iff q p, k.beq_iff o p, k.beq_iff o q, find-upsert q p d f t)

  pub update_taken :
      (q : K) (f : A → Option A) (t : List (K × A)) {a b : A}
      → find q t ≡ some a
      → f a ≡ some b
      → ((update q f t).1 ≡ some b) × (find q (update q f t).0 ≡ some b)
  update_taken q f t h e =
      ground (arith, update-row q f t, find-update q q f t, (k.beq_iff q q).1 refl)

  -- An update that is not made leaves the table as it is.
  pub update_refused :
      (q : K) (f : A → Option A) (t : List (K × A))
      → bind (find q t) f ≡ none
      → update q f t ≡ (t, none)
  unfolding find update
  update_refused q f [] h = refl
  update_refused q f ((p, a) ∷ t) h = ground (arith, update_refused q f t)
