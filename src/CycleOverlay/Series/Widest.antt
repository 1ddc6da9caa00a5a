-- ===== src/CycleOverlay/Series/Widest.antt =====
-- The source interval of the daily series, collectors/cycle_overlay.rs.
use crypto_collector.Prelude.{
  ℕ, ◌<◌, ◌%◌, ◌≡◌, ◌∙◌, ◌⊎◌, inl, inr, refl, ap, sym, Bool, true, false, Option, some, none, List,
  [], ◌∷◌, arith, All, All-Elem, Elem, if◌then◌else◌,
}
use crypto_collector.Candles.{IntervalCoverage, interval_secs, divides}
use crypto_collector.CycleOverlay.Series.{
  Candidate, candidate, candidates_of, narrower, widest_from, widest, select_widest_source_interval,
}

narrower_irrefl : (a : Candidate) → narrower a a ≡ false
unfolding narrower
narrower_irrefl a = ground arith

not_narrower_trans :
    (a b c : Candidate) → narrower a b ≡ false → narrower b c ≡ false → narrower a c ≡ false
unfolding narrower
not_narrower_trans a b c h k = ground arith

narrower_asym : (a b : Candidate) → narrower a b ≡ true → narrower b a ≡ false
unfolding narrower
narrower_asym a b h = ground arith

-- A candidate carries the seconds of its interval, which is shorter than the target and divides it.
pub record IsDivisorOf (target_secs : ℕ) (c : Candidate) : Type 0 where
  pub spelled : interval_secs c.name ≡ some c.secs
  pub shorter : c.secs < target_secs
  pub divides_it : target_secs % c.secs ≡ 0

one_divisor :
    (target_secs secs : ℕ) (c : Candidate) (rest : List Candidate) (b : Bool)
    → divides target_secs secs ≡ b
    → c.secs ≡ secs
    → interval_secs c.name ≡ some secs
    → All (IsDivisorOf target_secs) rest
    → All (IsDivisorOf target_secs) (if b then c ∷ rest else rest)
one_divisor target_secs secs c rest true d e spelled a = (
  record { spelled = spelled ∙ ap some (sym e); shorter = ground arith; divides_it = ground arith },
  a,
)
one_divisor target_secs secs c rest false d e spelled a = a

candidates_of-IsDivisorOf :
    (target_secs : ℕ) (stored : List IntervalCoverage)
    → All (IsDivisorOf target_secs) (candidates_of target_secs stored)
unfolding candidates_of
candidates_of-IsDivisorOf target_secs [] = tt
candidates_of-IsDivisorOf target_secs (c ∷ stored) =
    by_secs (interval_secs c.interval) refl (candidates_of-IsDivisorOf target_secs stored)
  where
    by_secs :
        (o : Option ℕ)
        → interval_secs c.interval ≡ o
        → All (IsDivisorOf target_secs) (candidates_of target_secs stored)
        → All (IsDivisorOf target_secs) (elim o [
          | none ↦ candidates_of target_secs stored
          | some secs ↦
              if divides target_secs secs
              then candidate c secs ∷ candidates_of target_secs stored
              else candidates_of target_secs stored
        ])
    by_secs none e a = a
    by_secs (some secs) e a =
        one_divisor target_secs secs (candidate c secs) (candidates_of target_secs stored)
          (divides target_secs secs) refl refl e a

-- One step keeps the wider of two.
wider_of :
    (w best c : Candidate) (cs : List Candidate) (b : Bool)
    → narrower c best ≡ b
    → Elem w ((if b then best else c) ∷ cs)
    → narrower w (if b then best else c) ≡ false
    → Elem w (best ∷ c ∷ cs) × (narrower w best ≡ false) × (narrower w c ≡ false)
wider_of w best c cs true h e k = (
  elim e [ inl here ↦ inl here | inr there ↦ inr (inr there) ],
  k,
  not_narrower_trans w best c k (narrower_asym c best h),
)
wider_of w best c cs false h e k = (inr e, not_narrower_trans w c best k h, k)

widest_from-greatest :
    (cs : List Candidate) (best : Candidate)
    → Elem (widest_from best cs) (best ∷ cs)
      × All (λ c. narrower (widest_from best cs) c ≡ false) (best ∷ cs)
widest_from-greatest [] best = (inl refl, (narrower_irrefl best, tt))
widest_from-greatest (c ∷ cs) best =
    let next = if narrower c best then best else c in
    let (among, wide) = widest_from-greatest cs next in
    let (here, first, second) =
      wider_of (widest_from next cs) best c cs (narrower c best) refl among wide.0 in
    (here, (first, (second, wide.1)))

-- The source of the daily series is a stored interval that is shorter than the target and divides
-- it, and none of those covers a longer time, or as long a time with a longer interval. Nothing is
-- selected exactly if no stored interval divides the target.
pub select_widest_source_interval_lem :
    (stored : List IntervalCoverage) (target_secs : ℕ)
    → ((select_widest_source_interval stored target_secs ≡ none)
        × (candidates_of target_secs stored ≡ []))
      ⊎ ((c : Candidate) × (select_widest_source_interval stored target_secs ≡ some c.name)
          × Elem c (candidates_of target_secs stored)
          × IsDivisorOf target_secs c
          × All (λ d. narrower c d ≡ false) (candidates_of target_secs stored))
unfolding select_widest_source_interval
select_widest_source_interval_lem stored target_secs =
    chosen (candidates_of target_secs stored) (candidates_of-IsDivisorOf target_secs stored)
  where
    chosen :
        (cs : List Candidate)
        → All (IsDivisorOf target_secs) cs
        → (((elim (widest cs) [ none ↦ none | some c ↦ some c.name ]) ≡ none) × (cs ≡ []))
          ⊎ ((c : Candidate) × ((elim (widest cs) [ none ↦ none | some c ↦ some c.name ])
                ≡ some c.name)
              × Elem c cs
              × IsDivisorOf target_secs c
              × All (λ d. narrower c d ≡ false) cs)
    chosen [] a = inl (refl, refl)
    chosen (c ∷ cs) a =
        let (among, wide) = widest_from-greatest cs c in
        inr (
          widest_from c cs,
          refl,
          among,
          All-Elem (IsDivisorOf target_secs) (widest_from c cs) (c ∷ cs) a among,
          wide,
        )
