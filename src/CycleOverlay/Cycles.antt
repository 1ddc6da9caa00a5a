-- ===== src/CycleOverlay/Cycles.antt =====
-- The windows of the halving cycles of collectors/cycle_overlay.rs.
use crypto_collector.Prelude.{
  ℕ, ◌+◌, ◌-◌, ◌<◌, ◌⊎◌, inl, inr, Option, some, none, [], ◌∷◌, ◌≡◌, refl, arith, ◌==◌,
  if◌then◌else◌,
}
use native.Mathlib.Decide.{dec_lt}
use crypto_collector.CycleOverlay.{CycleAssignment, assign_cycle, assign_cycle_in}

-- The first day of a cycle and of the one after it; the last known cycle is open.
abbrev pub window_of : ℕ → Option (ℕ × Option ℕ)
window_of cycle =
    if cycle == 1
    then some (15_672, some 16_991)
    else if cycle == 2
    then some (16_991, some 18_393)
    else if cycle == 3
    then some (18_393, some 19_833)
    else if cycle == 4
    then some (19_833, none)
    else none

abbrev pub Precedes : ℕ → Option ℕ → Type 0
Precedes date none = Unit {0}
Precedes date (some next) = date < next

-- A day before the first halving has no cycle. Every other day lies in the half-open window of the
-- cycle it is assigned, from the halving up to the next one, and its offset counts the days from
-- that halving; with the projected halving the assignment is the same up to that day.
pub assign_cycle_lem :
    (date : ℕ)
    → ((assign_cycle date ≡ none) × (date < 15_672))
      ⊎ ((a : CycleAssignment) × (next : Option ℕ) × (assign_cycle date ≡ some a)
          × (window_of a.cycle_number ≡ some (a.halving_date, next))
          × Precedes date next
          × (date ≡ a.halving_date + a.days_since_halving)
          × (date < 21_294
              → assign_cycle_in date 15_672 (16_991 ∷ 18_393 ∷ 19_833 ∷ 21_294 ∷ []) ≡ a))
unfolding assign_cycle assign_cycle_in
assign_cycle_lem date = elim (dec_lt date 15_672) [
  | yes early ↦ inl (ground arith, early)
  | no at_first ↦ inr (elim (dec_lt date 16_991) [
    | yes one ↦ (
      record { cycle_number = 1; halving_date = 15_672; days_since_halving = date - 15_672 },
      some 16_991,
      ground arith,
      refl,
      one,
      omega arith,
      λ h. ground arith,
    )
    | no at_second ↦ elim (dec_lt date 18_393) [
      | yes two ↦ (
        record { cycle_number = 2; halving_date = 16_991; days_since_halving = date - 16_991 },
        some 18_393,
        ground arith,
        refl,
        two,
        omega arith,
        λ h. ground arith,
      )
      | no at_third ↦ elim (dec_lt date 19_833) [
        | yes three ↦ (
          record { cycle_number = 3; halving_date = 18_393; days_since_halving = date - 18_393 },
          some 19_833,
          ground arith,
          refl,
          three,
          omega arith,
          λ h. ground arith,
        )
        | no at_fourth ↦ (
          record { cycle_number = 4; halving_date = 19_833; days_since_halving = date - 19_833 },
          none,
          ground arith,
          refl,
          tt,
          omega arith,
          λ h. ground arith,
        )
      ]
    ]
  ])
]
