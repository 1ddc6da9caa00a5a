-- ===== src/CycleOverlay.antt =====
-- The halving cycles of collectors/cycle_overlay.rs: the assignment of a day to its cycle. A day is
-- the number of days since the Unix epoch.
pub mod Cycles
pub mod Overlay
pub mod Projection
pub mod Series
use crypto_collector.Prelude.{
  ℕ, zero, suc, ◌+◌, ◌-◌, Bool, Option, some, none, List, [], ◌∷◌, ◌++◌, ltb, leb, if◌then◌else◌,
}

-- 2012-11-28, 2016-07-09, 2020-05-11 and 2024-04-20.
abbrev pub halving_dates : List ℕ
halving_dates = 15_672 ∷ 16_991 ∷ 18_393 ∷ 19_833 ∷ []

pub record CycleAssignment : Type 0 where
  pub cycle_number : ℕ
  pub halving_date : ℕ
  pub days_since_halving : ℕ

-- The loop: the index of the last date that is reached, and that date, from the best so far.
abbrev pub last_reached : ℕ → ℕ → ℕ × ℕ → List ℕ → ℕ × ℕ
last_reached date i best [] = best
last_reached date i best (d ∷ dates) =
    let rest = last_reached date (suc i) (i, d) dates in if leb d date then rest else best

-- The assignment by an index and its date; `num_days` of a span that is not negative.
abbrev pub assignment : ℕ → ℕ × ℕ → CycleAssignment
assignment date (idx, halving_date) = record {
  cycle_number = idx + 1;
  halving_date = halving_date;
  days_since_halving = date - halving_date;
}

-- `assign_cycle_in` on the dates `first ∷ rest`; the loop starts at index 0 with the first date.
unfoldable pub assign_cycle_in : ℕ → ℕ → List ℕ → CycleAssignment
assign_cycle_in date first rest = assignment date (last_reached date 0 (0, first) (first ∷ rest))

unfoldable pub assign_cycle : ℕ → Option CycleAssignment
assign_cycle date =
    if ltb date 15_672
    then none
    else some (assignment date (last_reached date 0 (0, 15_672) halving_dates))

-- With the estimate 2028-04-20.
abbrev pub projected_halving_dates : List ℕ
projected_halving_dates = halving_dates ++ 21_294 ∷ []
