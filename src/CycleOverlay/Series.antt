-- ===== src/CycleOverlay/Series.antt =====
-- The daily series and the recompute of collectors/cycle_overlay.rs. A candle is stamped in
-- nanoseconds, its UTC day is the number of days since the epoch; the session of the database is in
-- UTC. The composite projection works on floating-point numbers and is a parameter.
pub mod Widest
pub mod AsOf
use crypto_collector.Prelude.{
  ℕ, ◌+◌, ◌-◌, ◌*◌, ◌/◌, ◌%◌, String, Bool, true, false, not, ◌&&◌, ◌||◌, Option, some, none, List,
  [], ◌∷◌, ◌++◌, map, ltb, leb, ◌==◌, str_eq, if◌then◌else◌, filter_by, sort_by, last?,
}
use crypto_collector.Prelude.Groups.{group_from}
use crypto_collector.Candles.{
  Decimals, CoinCandle, IntervalCoverage, second, interval_secs, divides,
}
use crypto_collector.CycleOverlay.Overlay.{Quotients, OverlayPoint, compute_overlay}
use crypto_collector.CycleOverlay.Projection.{project_cycle_repeat}

abbrev pub day : ℕ
day = 86_400 * second

-- An interval with its coverage in seconds and its own seconds.
pub record Candidate : Type 0 where
  pub name : String
  pub coverage_secs : ℕ
  pub secs : ℕ

abbrev pub candidate : IntervalCoverage → ℕ → Candidate
candidate c secs = record {
  name = c.interval;
  coverage_secs = (c.latest - c.earliest) / second;
  secs = secs;
}

-- The divisors of the target among the intervals that are stored.
unfoldable pub candidates_of : ℕ → List IntervalCoverage → List Candidate
candidates_of target_secs [] = []
candidates_of target_secs (c ∷ stored) =
    let rest = candidates_of target_secs stored in
    elim (interval_secs c.interval) [
      | none ↦ rest
      | some secs ↦ if divides target_secs secs then candidate c secs ∷ rest else rest
    ]

-- The order of the keys `(coverage_secs, secs)`.
unfoldable pub narrower : Candidate → Candidate → Bool
narrower a b =
    ltb a.coverage_secs b.coverage_secs || (a.coverage_secs == b.coverage_secs) && ltb a.secs b.secs

-- `max_by_key` keeps the last of the greatest.
abbrev pub widest_from : Candidate → List Candidate → Candidate
widest_from best [] = best
widest_from best (c ∷ cs) = widest_from (if narrower c best then best else c) cs

abbrev pub widest : List Candidate → Option Candidate
widest [] = none
widest (c ∷ cs) = some (widest_from c cs)

unfoldable pub select_widest_source_interval : List IntervalCoverage → ℕ → Option String
select_widest_source_interval stored target_secs =
    elim (widest (candidates_of target_secs stored)) [ none ↦ none | some c ↦ some c.name ]

-- `ts <= $3` where a cutoff is given.
abbrev pub up_to : Option ℕ → ℕ → Bool
up_to none ts = true
up_to (some cutoff) ts = leb ts cutoff

module _ {D : Type 0} where
  unfoldable pub of_interval : String → String → String → CoinCandle D → Bool
  of_interval coin_id vs_currency interval c =
      str_eq c.coin_id coin_id && str_eq c.vs_currency vs_currency && str_eq c.interval interval

  unfoldable pub read_interval :
      List (CoinCandle D) → String → String → String → Option ℕ → List (CoinCandle D)
  read_interval candles coin_id vs_currency interval as_of =
      filter_by (λ c. of_interval coin_id vs_currency interval c && up_to as_of c.ts) candles

  abbrev pub day_of : CoinCandle D → ℕ
  day_of c = c.ts / day

  abbrev pub in_time : CoinCandle D → CoinCandle D → Bool
  in_time a b = leb a.ts b.ts

  -- The close of the last candle of each day.
  abbrev pub last_closes : List (ℕ × List (CoinCandle D)) → List (ℕ × D)
  last_closes [] = []
  last_closes ((d, members) ∷ days) =
      let rest = last_closes days in
      elim (last? members) [ none ↦ rest | some c ↦ (d, c.close) ∷ rest ]

  -- `SELECT DISTINCT ON (day) day, close … ORDER BY day, ts DESC`.
  unfoldable pub aggregate_daily_from_finer :
      List IntervalCoverage → List (CoinCandle D) → String → String → Option ℕ → List (ℕ × D)
  aggregate_daily_from_finer coverage candles coin_id vs_currency as_of =
      elim (select_widest_source_interval coverage 86_400) [
        | none ↦ []
        | some interval ↦ last_closes (
            group_from day_of
              (sort_by in_time (read_interval candles coin_id vs_currency interval as_of)) [])
      ]

  abbrev pub or_finer : List (CoinCandle D) → List (ℕ × D) → List (ℕ × D)
  or_finer [] finer = finer
  or_finer (c ∷ cs) finer = map (λ c. (day_of c, c.close)) (c ∷ cs)

  unfoldable pub load_daily_series :
      List IntervalCoverage → List (CoinCandle D) → String → String → Option ℕ → List (ℕ × D)
  load_daily_series coverage candles coin_id vs_currency as_of =
      or_finer (read_interval candles coin_id vs_currency "1d" as_of)
        (aggregate_daily_from_finer coverage candles coin_id vs_currency as_of)

-- The calibration anchors are those of one pair.
abbrev pub use_btc_anchors : String → String → Bool
use_btc_anchors coin_id vs_currency = str_eq coin_id "bitcoin" && str_eq vs_currency "usd"

-- A row of cycle_overlay_points, models/cycle_overlay.rs with the column projection_model.
pub record OverlayRow (D : Type 0) : Type 0 where
  pub coin_id : String
  pub vs_currency : String
  pub projection_model : String
  pub point : OverlayPoint D

module _ {D : Type 0} where
  abbrev pub rows_of : String → String → String → List (OverlayPoint D) → List (OverlayRow D)
  rows_of coin_id vs_currency model group =
      map
        (λ p. record {
          coin_id = coin_id;
          vs_currency = vs_currency;
          projection_model = model;
          point = p;
        })
        group

  abbrev pub is_of_coin : String → String → OverlayRow D → Bool
  is_of_coin coin_id vs_currency r = str_eq r.coin_id coin_id && str_eq r.vs_currency vs_currency

  module _ ⦃dec : Decimals D⦄ ⦃q : Quotients D⦄
      (project_composite : List (ℕ × D)
        → List (OverlayPoint D)
        → Bool
        → List (OverlayPoint D)) where
    -- The DELETE and the three INSERTs of the transaction, on the rows in the order of insertion.
    unfoldable pub recompute_cycle_overlay :
        List IntervalCoverage
        → List (CoinCandle D)
        → String
        → String
        → List (OverlayRow D)
        → List (OverlayRow D)
    recompute_cycle_overlay coverage candles coin_id vs_currency table =
        let daily = load_daily_series coverage candles coin_id vs_currency none in
        let points = compute_overlay daily in
        filter_by (λ r. not (is_of_coin coin_id vs_currency r)) table
        ++ (rows_of coin_id vs_currency "real" points
            ++ (rows_of coin_id vs_currency "replay" (project_cycle_repeat daily points)
                ++ rows_of coin_id vs_currency "composite"
                    (project_composite daily points (use_btc_anchors coin_id vs_currency))))
