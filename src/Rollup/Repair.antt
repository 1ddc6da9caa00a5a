-- ===== src/Rollup/Repair.antt =====
-- The reconcile and the backward repair of collectors/rollup.rs.
use crypto_collector.Prelude.{
  ℕ, ◌/◌, ◌%◌, ◌≤◌, ◌<◌, ◌↔◌, Bool, some, List, [], ◌∷◌, ◌≡◌, refl, arith, any, map, not, filter_by,
  ◌==◌, ◌&&◌, Bool-cases, inl, inr, ap, ==_iff,
}
use crypto_collector.Candles.{CoinCandle, bucket_start, second}
use crypto_collector.Rollup.{
  reconcile_window, same_second, backward_repair_window, bucket_instant, week_secs,
}

-- A repair runs exactly when the bucket of the oldest source row precedes the oldest materialized
-- bucket. Its window then starts at a week, at or before the oldest source row and its bucket, and
-- ends at the oldest materialized bucket.
pub backward_repair_window_lem :
    (source_min earliest target_secs : ℕ)
    → ((backward_repair_window source_min earliest target_secs
          ≡ some (bucket_instant source_min week_secs, earliest))
        ↔ (bucket_instant source_min target_secs < earliest))
      × (bucket_start source_min week_secs % week_secs ≡ 0)
      × (bucket_instant source_min week_secs ≤ source_min)
unfolding backward_repair_window bucket_start
backward_repair_window_lem source_min earliest target_secs =
    (ground arith, omega arith, omega arith)

-- A second at which a candle was emitted.
abbrev pub is_emitted : {D : Type 0} → List (CoinCandle D) → ℕ → Bool
is_emitted emitted ts = any (λ e. ts / second == e.ts / second) emitted

module _ {D : Type 0} where
  deleted-at :
      (x : ℕ) (emitted previous : List (CoinCandle D))
      → any
          (λ t. t == x)
          (map (λ c. c.ts) (filter_by (λ c. not (any (same_second c) emitted)) previous))
        ≡ (any (λ c. c.ts == x) previous && not (is_emitted emitted x))
  deleted-at x emitted [] = refl
  deleted-at x emitted (c ∷ previous) = elim (Bool-cases (c.ts == x)) [
    | inl same ↦
        let moved : any (same_second c) emitted ≡ is_emitted emitted x =
          ap (is_emitted emitted) ((==_iff (c.ts) x).0 same) in
        ground (arith, moved, deleted-at x emitted previous)
    | inr other ↦ ground (arith, deleted-at x emitted previous)
  ]

  -- A reconcile upserts exactly the emitted candles, and deletes an instant exactly when a row was
  -- materialized there before and no emitted candle has its second.
  pub reconcile_window_lem :
      (x : ℕ) (previous emitted : List (CoinCandle D))
      → ((reconcile_window previous emitted).0 ≡ emitted)
        × (any (λ t. t == x) (reconcile_window previous emitted).1
            ≡ (any (λ c. c.ts == x) previous && not (is_emitted emitted x)))
  unfolding reconcile_window
  reconcile_window_lem x previous emitted = (refl, deleted-at x emitted previous)
