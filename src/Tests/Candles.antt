-- ===== src/Tests/Candles.antt =====
-- Witnesses for the properties of the candle aggregation, with natural numbers as decimals.
use crypto_collector.Prelude.{
  ℕ, ◌+◌, ◌*◌, ◌/◌, ◌⊎◌, some, none, List, [], ◌∷◌, ◌≡◌, refl, arith, All, find_by, filter_by,
  sort_by, ltb,
}
use crypto_collector.Candles.{
  Decimals, CoinCandle, second, by_ts, aggregate_candles, IntervalCoverage, select_source_interval,
}
use crypto_collector.Candles.Buckets.{in_bucket}
use crypto_collector.Candles.Members.{IsLeftOut, IsCandleOf, aggregate_candles-members}
use crypto_collector.Candles.Fold.{IsValid}
use crypto_collector.Candles.Output.{at_bucket, aggregate_candles-IsValid}
use crypto_collector.Candles.Source.Stored.{
  OfDivisor, IsCandidate, IsFloor, NoWorse, select_source_interval_lem,
}

instance abbrev pub whole : Decimals ℕ
whole = record {
  lt = ltb;
  add = ◌+◌;
  zero_decimal = 0;
  lt_irrefl = λ a. ground arith;
  lt_asym = λ a b h. ground arith;
  not_lt_trans = λ a b c h k. ground arith;
}

abbrev pub candle : ℕ → ℕ → CoinCandle ℕ
candle ts price = record {
  coin_id = "btc";
  vs_currency = "usd";
  interval = "1m";
  ts = ts * second;
  open_price = price;
  high = price + 2;
  low = price;
  close = price + 1;
  volume = some 5;
  source = "kraken";
}

abbrev minutes : List (CoinCandle ℕ)
minutes = candle 60 10 ∷ candle 0 7 ∷ candle 120 9 ∷ []

minutes-sorted : sort_by by_ts minutes ≡ candle 0 7 ∷ candle 60 10 ∷ candle 120 9 ∷ []
unfolding sort_by
minutes-sorted = refl

aggregate_candles-members_example :
    let members = filter_by (in_bucket 120 0) (sort_by by_ts minutes) in
    let found = find_by (at_bucket 0) (aggregate_candles minutes 120 60 500 "1m" "2m") in
    ((found ≡ none) × IsLeftOut 120 (120 / 60) 500 0 members)
    ⊎ ((c : CoinCandle ℕ) × (found ≡ some c) × IsCandleOf 120 (120 / 60) 500 0 members c)
aggregate_candles-members_example =
    aggregate_candles-members minutes 120 60 500 0 "1m" "2m" (candle 0 7)
      (candle 60 10 ∷ candle 120 9 ∷ []) minutes-sorted

candle-IsValid : (ts price : ℕ) → IsValid (candle ts price)
candle-IsValid ts price = record {
  low_open = ground arith;
  low_close = ground arith;
  open_high = ground arith;
  close_high = ground arith;
}

aggregate_candles-IsValid_example : All IsValid (aggregate_candles minutes 120 60 500 "1m" "2m")
aggregate_candles-IsValid_example =
    aggregate_candles-IsValid minutes 120 60 500 "1m" "2m"
      (candle-IsValid 60 10, (candle-IsValid 0 7, (candle-IsValid 120 9, tt)))

abbrev stored : List IntervalCoverage
stored =
    record { interval = "5m"; earliest = 0; latest = 900 * second }
    ∷ record { interval = "4h"; earliest = 500 * second; latest = 800 * second }
    ∷ []

select_source_interval_lem_example :
    ((select_source_interval stored 86_400 none (1000 * second) ≡ none)
      × All (OfDivisor 86_400 (λ d. ⊥)) stored)
    ⊎ ((d : ℕ × IntervalCoverage) × (floor : ℕ) × (select_source_interval stored 86_400 none
            (1000 * second)
          ≡ some (d.1.interval))
        × IsCandidate stored 86_400 d
        × IsFloor stored 86_400 none floor
        × All (OfDivisor 86_400 (NoWorse floor (1000 * second) d)) stored)
select_source_interval_lem_example = select_source_interval_lem stored 86_400 (1000 * second) none
