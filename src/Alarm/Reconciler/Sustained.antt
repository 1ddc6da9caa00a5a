-- ===== src/Alarm/Reconciler/Sustained.antt =====
-- The sustained timers of alarm/reconciler.rs, and its pacer conditions against the pacer's gate.
use crypto_collector.Prelude.{
  ℕ, ◌-◌, ◌≤◌, String, Bool, true, false, Option, some, none, List, [], ◌∷◌, ◌≡◌, refl, arith, any,
  leb, Option-cases, inl, inr,
}
use crypto_collector.Pacer.{UpstreamRequestPacer, reserve_row}
use crypto_collector.Alarm.Reconciler.{
  sustained_state_update, sustained_active, pacer_rows_to_conditions, PacerRow,
}

-- The readings of a raw signal at its sweeps, the latest first, and the marker after them.
abbrev pub marker : List (ℕ × Bool) → Option ℕ
marker [] = none
marker (e ∷ es) = sustained_state_update e.1 (marker es) e.0

-- The instants of the latest sweeps that all read true.
abbrev pub leading : List (ℕ × Bool) → List ℕ
leading [] = []
leading ((t, true) ∷ es) = t ∷ leading es
leading ((t, false) ∷ es) = []

-- No sweep comes after the bound, nor before an older one.
abbrev pub Descending : ℕ → List (ℕ × Bool) → Type 0
Descending bound [] = Unit {0}
Descending bound (e ∷ es) = (e.0 ≤ bound) × Descending e.0 es

marker-le :
    (bound : ℕ) (es : List (ℕ × Bool)) {x : ℕ}
    → Descending bound es
    → marker es ≡ some x
    → x ≤ bound
unfolding sustained_state_update
marker-le bound [] d h = ground arith
marker-le bound ((t, false) ∷ es) d h = ground arith
marker-le bound ((t, true) ∷ es) {x} d h = elim (Option-cases (marker es)) [
  | inl absent ↦ ground (arith, d.0)
  | inr (y, found) ↦ ground (arith, d.0, marker-le t es d.1 found)
]

leading-nothing : (es : List (ℕ × Bool)) → marker es ≡ none → leading es ≡ []
unfolding sustained_state_update
leading-nothing [] h = refl
leading-nothing ((t, false) ∷ es) h = refl
leading-nothing ((t, true) ∷ es) h = ground arith

-- A sustained alarm is active exactly when one of the sweeps since the signal began to hold without
-- interruption lies at least the threshold back: one false reading starts the clock again, and a
-- single true reading never raises the alarm before the threshold has passed.
pub sustained_active-marker :
    (now bound threshold : ℕ) (es : List (ℕ × Bool))
    → Descending bound es
    → sustained_active (marker es) now threshold ≡ any (λ t. leb threshold (now - t)) (leading es)
unfolding sustained_active sustained_state_update
sustained_active-marker now bound threshold [] d = refl
sustained_active-marker now bound threshold ((t, false) ∷ es) d = refl
sustained_active-marker now bound threshold ((t, true) ∷ es) d =
    let earlier = sustained_active-marker now t threshold es d.1 in
    elim (Option-cases (marker es)) [
      | inl absent ↦ ground (arith, leading-nothing es absent, earlier)
      | inr (x, found) ↦ ground (arith, earlier, marker-le t es d.1 found)
    ]

-- The row of the pacer as the reconciler reads it.
abbrev pub seen : String → UpstreamRequestPacer → PacerRow
seen provider r = record {
  provider = provider;
  cooldown_until = r.cooldown_until;
  credit_limit = r.credit_limit;
  credits_used = r.credits_used;
}

abbrev pub is_quiet : {A : Type 0} → List A → Bool
is_quiet [] = true
is_quiet (x ∷ xs) = false

abbrev pub is_taken : {A : Type 0} → Option A → Bool
is_taken none = false
is_taken (some a) = true

-- The reconciler raises a condition for a provider's pacer row exactly when the gate of the pacer
-- refuses that row at the same instant.
pub pacer_rows_to_conditions-reserve_row :
    (provider : String) (r : UpstreamRequestPacer) (now : ℕ)
    → is_quiet (pacer_rows_to_conditions (seen provider r ∷ []) now) ≡ is_taken (reserve_row now r)
unfolding pacer_rows_to_conditions reserve_row
pacer_rows_to_conditions-reserve_row provider r now = ground arith
