-- ===== src/Rollup/Recurrence.antt =====
-- The trigger of the backward repair in collectors/rollup.rs, when the oldest bucket is incomplete.
use crypto_collector.Prelude.{
  ℕ, ◌+◌, ◌*◌, ◌/◌, ◌≤◌, ◌<◌, ◌⊎◌, inl, inr, String, Bool, true, some, List, [], ◌∷◌, ◌≡◌, arith,
  All, All-sort_by, All-filter_by, filter_by, find_by, sort_by, length, if_of_cases, subst,
}
use native.Mathlib.Decide.{ℕ_discrete}
use crypto_collector.Candles.{Decimals, CoinCandle, aggregate_candles, bucket_start, second, by_ts}
use crypto_collector.Candles.Buckets.{in_bucket}
use crypto_collector.Candles.Output.{at_bucket}
use crypto_collector.Candles.Members.{aggregate_candles-members}
use crypto_collector.Rollup.{backward_repair_window, bucket_instant, week_secs}

-- The two widths that are materialized.
abbrev pub IsWidth : ℕ → Type 0
IsWidth target_secs = (target_secs ≡ 86_400) ⊎ (target_secs ≡ 604_800)

bucket_start-monotone :
    (a b target_secs : ℕ)
    → IsWidth target_secs
    → a ≤ b
    → bucket_start a target_secs ≤ bucket_start b target_secs
unfolding bucket_start
bucket_start-monotone a b target_secs (inl day) h = rw day (omega arith)
bucket_start-monotone a b target_secs (inr week) h = rw week (omega arith)

All-filtered : {A : Type 0} → (p : A → Bool) (xs : List A) → All (λ x. p x ≡ true) (filter_by p xs)
All-filtered p [] = tt
All-filtered p (x ∷ xs) =
    if_of_cases (All (λ x. p x ≡ true)) (p x) (x ∷ filter_by p xs) (filter_by p xs)
      (λ h. (h, All-filtered p xs)) (λ h. All-filtered p xs)

module _ {D : Type 0} ⦃dec : Decimals D⦄ where
  member-after :
      (source : List (CoinCandle D)) (source_min target_secs bs : ℕ) {first : CoinCandle D}
      {rest : List (CoinCandle D)}
      → IsWidth target_secs
      → All (λ c. source_min ≤ c.ts) source
      → filter_by (in_bucket target_secs bs) (sort_by by_ts source) ≡ first ∷ rest
      → bucket_start source_min target_secs ≤ bs
  member-after source source_min target_secs bs {first} {rest} width oldest members =
      let sorted = All-sort_by (λ (c : CoinCandle D). source_min ≤ c.ts) by_ts source oldest in
      let late = subst (All (λ (c : CoinCandle D). source_min ≤ c.ts)) members (
        All-filter_by (λ (c : CoinCandle D). source_min ≤ c.ts) (in_bucket target_secs bs)
          (sort_by by_ts source) sorted) in
      let inside =
        subst (All (λ (c : CoinCandle D). in_bucket target_secs bs c ≡ true)) members
          (All-filtered (in_bucket target_secs bs) (sort_by by_ts source)) in
      let at : bucket_start first.ts target_secs ≡ bs = ground (arith, inside.0) in
      rw (← at) (bucket_start-monotone source_min first.ts target_secs width late.0)

  -- Where the oldest bucket of the source is closed and incomplete, the repair is due again at every
  -- recompute: whichever materialized candle is the earliest, it lies after the trigger, since no
  -- recompute can emit the oldest bucket.
  pub backward_repair_window-recurs :
      (source : List (CoinCandle D)) (target_secs source_secs now bs source_min : ℕ)
      (label target_interval : String) (first : CoinCandle D) (rest : List (CoinCandle D))
      (c : CoinCandle D)
      → IsWidth target_secs
      → sort_by by_ts source ≡ first ∷ rest
      → All (λ c. source_min ≤ c.ts) source
      → bucket_start source_min target_secs + target_secs ≤ now / second
      → length (
          filter_by
            (in_bucket target_secs (bucket_start source_min target_secs))
            (sort_by by_ts source))
        < target_secs / source_secs
      → find_by
          (at_bucket bs)
          (aggregate_candles source target_secs source_secs now label target_interval)
        ≡ some c
      → backward_repair_window source_min (bs * second) target_secs
        ≡ some (bucket_instant source_min week_secs, bs * second)
  unfolding backward_repair_window
  backward_repair_window-recurs source target_secs source_secs now bs source_min label
        target_interval first rest c width sorted oldest closed short made =
      elim (aggregate_candles-members source target_secs source_secs now bs label target_interval
        first rest sorted) [
          | inl (nothing, why) ↦ absurd (ground (arith, nothing, made))
          | inr (d, found, (f, r, members, sums, ts, enough)) ↦
              let after = member-after source source_min target_secs bs width oldest members in
              elim (ℕ_discrete (bucket_start source_min target_secs) bs) [
                | yes same ↦
                    let short' =
                      subst
                        (λ b.
                          length (filter_by (in_bucket target_secs b) (sort_by by_ts source))
                          < target_secs / source_secs)
                        same short in
                    absurd (ground (arith, enough, short', closed, same))
                | no other ↦ ground (arith, after, other)
              ]
        ]
