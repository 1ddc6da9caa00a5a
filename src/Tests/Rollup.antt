-- ===== src/Tests/Rollup.antt =====
-- Witnesses for the properties of the rollup, with natural numbers as decimals.
use crypto_collector.Prelude.{
  sort_by, length, ◌<◌, ◌≤◌, ◌/◌, ◌+◌, ℕ, ◌*◌, ◌-◌, Bool, Option, some, none, List, [], ◌∷◌, ◌≡◌,
  refl, arith, find_by, filter_by, ltb, inl, if◌then◌else◌,
}
use crypto_collector.Candles.{
  CoinCandle, aggregate_candles, bucket_start, by_ts, emit, fold_bucket, fold_volume, second,
}
use crypto_collector.Candles.Buckets.{in_bucket}
use crypto_collector.Rollup.Recurrence.{backward_repair_window-recurs}
use crypto_collector.Candles.Output.{at_bucket}
use crypto_collector.Rollup.{
  backward_repair_window, bucket_instant, chunk, materialize_window_walk, week_secs,
}
use crypto_collector.Rollup.Walk.{materialize_window_walk_total}
use crypto_collector.Rollup.Windows.{in_window_of, aggregate_candles-window}
use crypto_collector.Tests.Candles.{whole, candle}

abbrev hours : List (CoinCandle ℕ)
hours = candle 43_200 10 ∷ candle 0 7 ∷ candle 90_000 9 ∷ candle 3_000_000 4 ∷ []

aggregate_candles-window_example :
    find_by (at_bucket 0) (
      aggregate_candles
        (filter_by (in_window_of (0 * second) (0 * second + chunk)) hours)
        86_400
        43_200
        5_000_000
        "12h"
        "1d")
    ≡ find_by (at_bucket 0) (aggregate_candles hours 86_400 43_200 5_000_000 "12h" "1d")
aggregate_candles-window_example =
    aggregate_candles-window hours 86_400 43_200 5_000_000 0 0 "btc" "usd" "12h" "1d"
      ((refl, refl), ((refl, refl), ((refl, refl), ((refl, refl), tt)))) (inl refl) refl refl
      (omega arith) (omega arith)

abbrev keep : ℕ → List ℕ → Option ℕ
keep n rows = some (n + 1)

abbrev load_one : ℕ → ℕ → ℕ → Option (List ℕ)
load_one n start end = if ltb start 9 then some (start ∷ []) else none

materialize_window_walk_total_example :
    (done : ℕ × Bool) × (materialize_window_walk load_one keep
        (λ rows. rows)
        ((7 * chunk - 0) / chunk + 3)
        0
        0
        (7 * chunk)
      ≡ some done)
materialize_window_walk_total_example =
    materialize_window_walk_total load_one keep (λ rows. rows) 0 0 (7 * chunk)

-- The first day has its second half only.
abbrev half_days : List (CoinCandle ℕ)
half_days = candle 43_200 7 ∷ candle 86_400 10 ∷ candle 129_600 12 ∷ []

abbrev second_day : CoinCandle ℕ
second_day = record {
  coin_id = "btc";
  vs_currency = "usd";
  interval = "1d";
  ts = 86_400 * second;
  open_price = 10;
  high = 14;
  low = 10;
  close = 13;
  volume = some 10;
  source = "aggregated:12h";
}

half_days-sorted :
    sort_by by_ts half_days ≡ candle 43_200 7 ∷ candle 86_400 10 ∷ candle 129_600 12 ∷ []
unfolding sort_by
half_days-sorted = refl

oldest_bucket : bucket_start (43_200 * second) 86_400 + 86_400 ≤ 500_000 * second / second
unfolding bucket_start
oldest_bucket = omega arith

oldest_incomplete :
    length (
      filter_by
        (in_bucket 86_400 (bucket_start (43_200 * second) 86_400))
        (sort_by by_ts half_days))
    < 86_400 / 43_200
unfolding bucket_start sort_by
oldest_incomplete = ground arith

second_day-made :
    find_by
      (at_bucket 86_400)
      (aggregate_candles half_days 86_400 43_200 (500_000 * second) "12h" "1d")
    ≡ some second_day
unfolding aggregate_candles sort_by bucket_start emit fold_bucket fold_volume
second_day-made = refl

backward_repair_window-recurs_example :
    backward_repair_window (43_200 * second) (86_400 * second) 86_400
    ≡ some (bucket_instant (43_200 * second) week_secs, 86_400 * second)
backward_repair_window-recurs_example =
    backward_repair_window-recurs half_days 86_400 43_200 (500_000 * second) 86_400
      (43_200 * second) "12h" "1d" (candle 43_200 7) (candle 86_400 10 ∷ candle 129_600 12 ∷ [])
      second_day (inl refl) half_days-sorted (omega arith, (omega arith, (omega arith, tt)))
      oldest_bucket oldest_incomplete second_day-made
