-- ===== src/Rollup/Walk.antt =====
-- The walk over windows of collectors/rollup.rs ends.
use crypto_collector.Prelude.{
  ℕ, zero, suc, ◌+◌, ◌*◌, ◌/◌, ◌-◌, ◌≤◌, ◌<◌, Bool, true, false, Option, some, List, ◌≡◌, arith,
  leb, Option-cases, inl, inr, Bool-cases,
}
use crypto_collector.Rollup.{materialize_window_walk, window_step, chunk}
use crypto_collector.Candles.{second}

module _ {S C : Type 0} (load : S → ℕ → ℕ → Option (List C)) (store : S → List C → Option S)
    (fold : List C → List C) where
  walk_within :
      (fuel : ℕ) (s : S) (window_start ceiling : ℕ)
      → ceiling + second + chunk < window_start + fuel * chunk
      → 1 ≤ fuel
      → (done : S × Bool) × (materialize_window_walk load store fold fuel s window_start ceiling
          ≡ some done)
  unfolding materialize_window_walk
  walk_within zero s window_start ceiling h k = absurd (omega arith)
  walk_within (suc fuel) s window_start ceiling h k =
      elim (Bool-cases (leb (window_start / second) (ceiling / second))) [
        | inr past ↦ ((s, true), ground arith)
        | inl inside ↦
            elim (Option-cases
              (window_step load store fold s (load s window_start (window_start + chunk)))) [
                | inl failed ↦ ((s, false), ground arith)
                | inr (s', made) ↦
                    let (done, walked) =
                      walk_within fuel s' (window_start + chunk) ceiling (omega arith)
                        (grind arith) in
                    (done, ground (arith, walked))
              ]
      ]

  -- The walk ends for any start and ceiling, whatever the reads and upserts answer: three
  -- windows more than the whole chunks between them are enough.
  pub materialize_window_walk_total :
      (s : S) (window_start ceiling : ℕ)
      → (done : S × Bool) × (materialize_window_walk load store fold
            ((ceiling - window_start) / chunk + 3)
            s
            window_start
            ceiling
          ≡ some done)
  materialize_window_walk_total s window_start ceiling =
      walk_within ((ceiling - window_start) / chunk + 3) s window_start ceiling (omega arith)
        (omega arith)
