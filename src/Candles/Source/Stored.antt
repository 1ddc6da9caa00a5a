-- ===== src/Candles/Source/Stored.antt =====
-- The choice of the stored interval of api/candles_agg.rs, by the stored intervals themselves.
use crypto_collector.Prelude.{
  ℕ, ◌+◌, ◌-◌, ◌/◌, ◌≤◌, ◌<◌, ◌%◌, ◌⊎◌, ◌≢◌, inl, inr, Bool, false, Bool-cases, Option, some, none,
  List, [], ◌∷◌, ◌≡◌, refl, sym, subst, arith, All, All-map, Elem, leb, first_least, Option-cases,
  if◌then◌else◌, if_of_cases,
}
use crypto_collector.Candles.{
  IntervalCoverage, second, interval_secs, divisors, divides, score, better, earliest_of, floor_of,
  select_source_interval,
}
use crypto_collector.Candles.Source.{Preferred, select_source_interval-first}

-- An entry of the divisors: the seconds are those of its interval, and they divide the target.
abbrev pub IsDivisor : ℕ → ℕ × IntervalCoverage → Type 0
IsDivisor target_secs d =
    (interval_secs (d.1.interval) ≡ some (d.0)) × (d.0 < target_secs) × (target_secs % d.0 ≡ 0)

-- The divisors by the seconds of the first stored interval, if it has any.
abbrev with_first :
    ℕ → IntervalCoverage → List (ℕ × IntervalCoverage) → Option ℕ → List (ℕ × IntervalCoverage)
with_first target_secs c rest o = elim o [
  | none ↦ rest
  | some secs ↦ if divides target_secs secs then (secs, c) ∷ rest else rest
]

-- What is so of a stored interval as long as it divides the target and is shorter.
abbrev pub OfDivisor : ℕ → (ℕ × IntervalCoverage → Type 0) → IntervalCoverage → Type 0
OfDivisor target_secs P c =
    (interval_secs c.interval ≡ none)
    ⊎ ((secs : ℕ) × (interval_secs c.interval ≡ some secs)
        × ((target_secs ≤ secs) ⊎ (target_secs % secs ≢ 0) ⊎ P (secs, c)))

-- The whole seconds from an instant up to a later one.
abbrev pub seconds_up_to : ℕ → ℕ → ℕ
seconds_up_to from to = (to - from) / second

-- The seconds of the window, from its floor to now, that a stored interval lacks at its ends.
abbrev pub missed : ℕ → ℕ → IntervalCoverage → ℕ
missed floor now c = seconds_up_to floor c.earliest + seconds_up_to c.latest now

-- `a` lacks fewer seconds than `b`, or as many and is at least as long.
abbrev pub NoWorse : ℕ → ℕ → ℕ × IntervalCoverage → ℕ × IntervalCoverage → Type 0
NoWorse floor now a b =
    (missed floor now a.1 < missed floor now b.1)
    ⊎ ((missed floor now a.1 ≡ missed floor now b.1) × (b.0 ≤ a.0))

-- A stored interval that divides the target.
abbrev pub IsCandidate : List IntervalCoverage → ℕ → ℕ × IntervalCoverage → Type 0
IsCandidate stored target_secs d = Elem d.1 stored × IsDivisor target_secs d

-- The start of the window, or the earliest instant that any candidate has.
abbrev pub IsFloor : List IntervalCoverage → ℕ → Option ℕ → ℕ → Type 0
IsFloor stored target_secs (some start) floor = floor ≡ start
IsFloor stored target_secs none floor =
    ((d : ℕ × IntervalCoverage) × IsCandidate stored target_secs d × (d.1.earliest ≡ floor))
    × All (OfDivisor target_secs (λ d. floor ≤ d.1.earliest)) stored

divisors-IsCandidate :
    (target_secs : ℕ) (stored : List IntervalCoverage)
    → All (IsCandidate stored target_secs) (divisors target_secs stored)
unfolding divisors
divisors-IsCandidate target_secs [] = tt
divisors-IsCandidate target_secs (c ∷ stored) =
    let ds = divisors target_secs stored in
    let later =
      All-map (IsCandidate stored target_secs) (IsCandidate (c ∷ stored) target_secs)
        (λ d (there, is). (inr there, is)) ds (divisors-IsCandidate target_secs stored) in
    elim (Option-cases (interval_secs c.interval)) [
      | inl n ↦
          subst (λ o. All (IsCandidate (c ∷ stored) target_secs) (with_first target_secs c ds o))
            (sym n) later
      | inr (secs, e) ↦
          subst (λ o. All (IsCandidate (c ∷ stored) target_secs) (with_first target_secs c ds o))
            (sym e)
            (if_of_cases (All (IsCandidate (c ∷ stored) target_secs)) (divides target_secs secs) _ _
              (λ k. ((inl refl, (e, ground arith, ground arith)), later)) (λ k. later))
    ]

divisors-All :
    (Q : ℕ × IntervalCoverage → Type 0) (target_secs : ℕ) (stored : List IntervalCoverage)
    → All Q (divisors target_secs stored)
    → All (OfDivisor target_secs Q) stored
unfolding divisors
divisors-All Q target_secs [] h = tt
divisors-All Q target_secs (c ∷ stored) h =
    let ds = divisors target_secs stored in
    elim (Option-cases (interval_secs c.interval)) [
      | inl n ↦ (
        inl n,
        divisors-All Q target_secs stored (subst (λ o. All Q (with_first target_secs c ds o)) n h),
      )
      | inr (secs, e) ↦
          let entry = subst (λ o. All Q (with_first target_secs c ds o)) e h in
          elim (Bool-cases (divides target_secs secs)) [
            | inl b ↦
                let (mine, later) = subst (λ k. All Q (if k then (secs, c) ∷ ds else ds)) b entry in
                (inr (secs, e, inr (inr mine)), divisors-All Q target_secs stored later)
            | inr b ↦
                let later = subst (λ k. All Q (if k then (secs, c) ∷ ds else ds)) b entry in
                (inr (secs, e, not_divides b), divisors-All Q target_secs stored later)
          ]
    ]
  where
    not_divides :
        {secs : ℕ}
        → divides target_secs secs ≡ false
        → (target_secs ≤ secs) ⊎ (target_secs % secs ≢ 0) ⊎ Q (secs, c)
    not_divides b = ground (arith, b)

earliest_of_lem :
    (P : ℕ × IntervalCoverage → Type 0) (ds : List (ℕ × IntervalCoverage))
    → All P ds
    → ((earliest_of ds ≡ none) × (ds ≡ []))
      ⊎ ((e : ℕ) × (earliest_of ds ≡ some e)
          × ((d : ℕ × IntervalCoverage) × P d × (d.1.earliest ≡ e))
          × All (λ (d : ℕ × IntervalCoverage). e ≤ d.1.earliest) ds)
earliest_of_lem P [] h = inl (refl, refl)
earliest_of_lem P (d ∷ ds) (mine, later) = elim (earliest_of_lem P ds later) [
  | inl (e, empty) ↦ inr (
    d.1.earliest,
    rw e refl,
    (d, mine, refl),
    (
      omega arith,
      subst (All (λ (x : ℕ × IntervalCoverage). d.1.earliest ≤ x.1.earliest)) (sym empty) tt,
    ),
  )
  | inr (best, e, (x, holds, at), least) ↦ elim (Bool-cases (leb (d.1.earliest) best)) [
    | inl b ↦ inr (
      d.1.earliest,
      rw (e, b) refl,
      (d, mine, refl),
      (
        omega arith,
        All-map (λ (y : ℕ × IntervalCoverage). best ≤ y.1.earliest)
            (λ (y : ℕ × IntervalCoverage). d.1.earliest ≤ y.1.earliest)
            (λ y k. ground (arith, b, k)) ds least,
      ),
    )
    | inr b ↦ inr (best, rw (e, b) refl, (x, holds, at), (ground (arith, b), least))
  ]
]

nothing_selected :
    (lt : ℕ × IntervalCoverage → ℕ × IntervalCoverage → Bool) {d : ℕ × IntervalCoverage}
    → first_least lt [] ≡ some d
    → ⊥
unfolding first_least
nothing_selected lt h = ground (arith, h)

-- Without a start the floor is the earliest instant of a candidate, as long as there is one.
floor_of-IsFloor :
    (window_start : Option ℕ) (now : ℕ) (target_secs : ℕ) (stored : List IntervalCoverage)
    {d : ℕ × IntervalCoverage}
    → first_least
        (better (floor_of window_start now (divisors target_secs stored)) now)
        (divisors target_secs stored)
      ≡ some d
    → IsFloor stored target_secs window_start
        (floor_of window_start now (divisors target_secs stored))
floor_of-IsFloor (some start) now target_secs stored found = refl
floor_of-IsFloor none now target_secs stored {d} found =
    let ds = divisors target_secs stored in
    elim (earliest_of_lem (IsCandidate stored target_secs) ds
      (divisors-IsCandidate target_secs stored)) [
        | inl (e, empty) ↦ absurd (
            nothing_selected (better (floor_of none now ds) now) (
              subst (λ xs. first_least (better (floor_of none now ds) now) xs ≡ some d) empty
                found))
        | inr (earliest, e, attained, least) ↦
            subst (IsFloor stored target_secs none) (floor_is earliest e)
              (attained, divisors-All (λ x. earliest ≤ x.1.earliest) target_secs stored least)
      ]
  where
    floor_is :
        (earliest : ℕ)
        → earliest_of (divisors target_secs stored) ≡ some earliest
        → earliest ≡ floor_of none now (divisors target_secs stored)
    floor_is earliest e = rw (e, floor_of) refl

Preferred-NoWorse :
    (floor now : ℕ) (a b : ℕ × IntervalCoverage) → Preferred floor now a b → NoWorse floor now a b
unfolding score
Preferred-NoWorse floor now a b h = h

-- A stored interval can be selected if it is shorter than the target and divides it. Nothing is
-- selected exactly when no stored interval can be. Otherwise the selected interval is one that can
-- be, and none of the others that can misses fewer seconds of the window at its two ends, counted in
-- whole seconds, nor misses as many and is longer. The window ends now and begins at its start or,
-- without a start, at the earliest instant of all that can be selected.
pub select_source_interval_lem :
    (stored : List IntervalCoverage) (target_secs now : ℕ) (window_start : Option ℕ)
    → ((select_source_interval stored target_secs window_start now ≡ none)
        × All (OfDivisor target_secs (λ d. ⊥)) stored)
      ⊎ ((d : ℕ × IntervalCoverage) × (floor : ℕ) × (select_source_interval stored target_secs
              window_start now
            ≡ some (d.1.interval))
          × IsCandidate stored target_secs d
          × IsFloor stored target_secs window_start floor
          × All (OfDivisor target_secs (NoWorse floor now d)) stored)
select_source_interval_lem stored target_secs now window_start =
    let ds = divisors target_secs stored in
    let floor = floor_of window_start now ds in
    elim (select_source_interval-first stored target_secs now window_start
      (divisors-IsCandidate target_secs stored)) [
        | inl (e, empty) ↦
            inl (e, divisors-All (λ d. ⊥) target_secs stored (subst (All (λ d. ⊥)) (sym empty) tt))
        | inr (d, found, e, candidate, best) ↦ inr (
          d,
          floor,
          e,
          candidate,
          floor_of-IsFloor window_start now target_secs stored found,
          divisors-All (NoWorse floor now d) target_secs stored (
              All-map (Preferred floor now d) (NoWorse floor now d) (Preferred-NoWorse floor now d)
                ds best),
        )
      ]
