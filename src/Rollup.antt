-- ===== src/Rollup.antt =====
-- The native rollup of collectors/rollup.rs: the pure core and the walk over week-aligned windows. The
-- database is a state `S`; the reads and the upserts of the walk are operations on it that may fail.
pub mod Windows
pub mod Walk
pub mod Repair
pub mod Recurrence
use crypto_collector.Prelude.{
  ℕ, zero, suc, ◌+◌, ◌*◌, ◌/◌, String, Bool, true, false, Option, some, none, List, [], ◌∷◌, ◌≡◌,
  map, ltb, leb, any, filter_by, not, ◌==◌, if◌then◌else◌, str_append,
}
use crypto_collector.Candles.{Decimals, CoinCandle, aggregate_candles, bucket_start, second}

abbrev pub week_secs : ℕ
week_secs = 604_800

abbrev pub backfill_chunk_weeks : ℕ
backfill_chunk_weeks = 4

abbrev pub target_intervals : List (String × ℕ)
target_intervals = ("1d", 86_400) ∷ ("1w", 604_800) ∷ []

-- Whether the instant of an emitted candle has the same second.
abbrev pub same_second : {D : Type 0} → CoinCandle D → CoinCandle D → Bool
same_second c e = c.ts / second == e.ts / second

-- The candles to upsert and the instants to delete.
unfoldable pub reconcile_window :
    {D : Type 0} → List (CoinCandle D) → List (CoinCandle D) → List (CoinCandle D) × List ℕ
reconcile_window previously_materialized emitted = (
  emitted,
  map (λ c. c.ts) (filter_by (λ c. not (any (same_second c) emitted)) previously_materialized),
)

-- `bucket_start` as an instant.
abbrev pub bucket_instant : ℕ → ℕ → ℕ
bucket_instant ts target_secs = bucket_start ts target_secs * second

unfoldable pub backward_repair_window : ℕ → ℕ → ℕ → Option (ℕ × ℕ)
backward_repair_window source_min_ts earliest_materialized_ts target_secs =
    if ltb (bucket_instant source_min_ts target_secs) earliest_materialized_ts
    then some (bucket_instant source_min_ts week_secs, earliest_materialized_ts)
    else none

module _ {D : Type 0} ⦃dec : Decimals D⦄ where
  -- The label overwrites the source of each row.
  unfoldable pub materialize_from_source :
      List (CoinCandle D) → ℕ → ℕ → ℕ → String → String → List (CoinCandle D)
  materialize_from_source source target_secs source_secs now source_interval target_interval =
      map {A = CoinCandle D} (λ row. record row { source = str_append "rollup:" source_interval })
        (aggregate_candles source target_secs source_secs now source_interval target_interval)

abbrev pub chunk : ℕ
chunk = week_secs * backfill_chunk_weeks * second

-- The end of a walk: the state, and whether no statement failed.
module _ {S C : Type 0} (load : S → ℕ → ℕ → Option (List C)) (store : S → List C → Option S)
    (fold : List C → List C) where
  -- One window: its rows are loaded, folded and upserted; an error leaves the walk.
  abbrev pub window_step : S → Option (List C) → Option S
  window_step s none = none
  window_step s (some []) = some s
  window_step s (some (c ∷ cs)) = store s (fold (c ∷ cs))

  unfoldable pub materialize_window_walk : ℕ → S → ℕ → ℕ → Option (S × Bool)
  materialize_window_walk zero s window_start ceiling = none
  materialize_window_walk (suc fuel) s window_start ceiling =
      if leb (window_start / second) (ceiling / second)
      then elim (window_step s (load s window_start (window_start + chunk))) [
        | none ↦ some (s, false)
        | some s' ↦ materialize_window_walk fuel s' (window_start + chunk) ceiling
      ]
      else some (s, true)
