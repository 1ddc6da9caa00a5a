-- ===== src/Candles/Source.antt =====
-- The choice of the stored interval that an aggregation of api/candles_agg.rs reads.
pub mod Stored
use crypto_collector.Prelude.{
  ℕ, ◌≤◌, ◌<◌, ◌%◌, ◌⊎◌, inl, inr, Bool, true, false, Option, some, none, List, [], ◌∷◌, ◌≡◌, refl,
  arith, All, All-first_least, first_least, first_least-le, Option-cases, if◌then◌else◌,
  if_of_cases,
}
use crypto_collector.Candles.{
  IntervalCoverage, interval_secs, divisors, divides, score, better, floor_of,
  select_source_interval,
}

-- The divisor `a` is chosen before `b` or ties with it: its score is less, or the scores are the
-- same and its interval is at least as long.
abbrev pub Preferred : ℕ → ℕ → ℕ × IntervalCoverage → ℕ × IntervalCoverage → Type 0
Preferred floor now a b =
    (score floor now a < score floor now b)
    ⊎ ((score floor now a ≡ score floor now b) × (b.0 ≤ a.0))

nothing_of :
    (lt : ℕ × IntervalCoverage → ℕ × IntervalCoverage → Bool) (ds : List (ℕ × IntervalCoverage))
    → first_least lt ds ≡ none
    → ds ≡ []
unfolding first_least
nothing_of lt [] h = refl
nothing_of lt (d ∷ ds) h = absurd (ground arith)

better-Preferred :
    (floor now : ℕ) (a b : ℕ × IntervalCoverage)
    → better floor now a b ≡ true
    → Preferred floor now a b
unfolding better
better-Preferred floor now a b h = ground arith

not_better-Preferred :
    (floor now : ℕ) (a b : ℕ × IntervalCoverage)
    → better floor now b a ≡ false
    → Preferred floor now a b
unfolding better
not_better-Preferred floor now a b h = ground arith

Preferred-trans :
    (floor now : ℕ) (a b c : ℕ × IntervalCoverage)
    → Preferred floor now a b
    → Preferred floor now b c
    → Preferred floor now a c
Preferred-trans floor now a b c h k = ground arith

pub select_source_interval-first :
    {P : ℕ × IntervalCoverage → Type 0} (stored : List IntervalCoverage) (target_secs now : ℕ)
    (window_start : Option ℕ)
    → All P (divisors target_secs stored)
    → let ds = divisors target_secs stored in
      ((select_source_interval stored target_secs window_start now ≡ none) × (ds ≡ []))
      ⊎ ((d : ℕ × IntervalCoverage) × (first_least (better (floor_of window_start now ds) now) ds
            ≡ some d)
          × (select_source_interval stored target_secs window_start now ≡ some (d.1.interval))
          × P d
          × All (Preferred (floor_of window_start now ds) now d) ds)
unfolding select_source_interval
select_source_interval-first {P} stored target_secs now window_start each =
    let ds = divisors target_secs stored in
    let floor = floor_of window_start now ds in
    elim (Option-cases (first_least (better floor now) ds)) [
      | inl empty ↦ inl (ground arith, nothing_of (better floor now) ds empty)
      | inr (d, found) ↦ inr (
        d,
        found,
        ground arith,
        All-first_least P (better floor now) ds found each,
        first_least-le (better floor now) (Preferred floor now) (better-Preferred floor now)
            (not_better-Preferred floor now) (Preferred-trans floor now)
            (λ a. inr (refl, omega arith)) ds found,
      )
    ]
