-- ===== src/CycleOverlay/Series/AsOf.antt =====
-- The daily series of collectors/cycle_overlay.rs as of an instant behind all candles.
use crypto_collector.Prelude.{
  ℕ, ◌≤◌, String, true, ◌&&◌, some, none, List, leb, ◌≡◌, ◌∙◌, ap, arith, All, All-map,
  filter_by-agree, Option-cases, inl, inr,
}
use crypto_collector.Candles.{CoinCandle, IntervalCoverage}
use crypto_collector.CycleOverlay.Series.{
  load_daily_series, read_interval, of_interval, aggregate_daily_from_finer, or_finer,
  select_widest_source_interval,
}
use crypto_collector.Api.CycleOverlay.{cycle_order}

module _ {D : Type 0} where
  read_interval-as_of :
      (candles : List (CoinCandle D)) (coin_id vs_currency interval : String) (t : ℕ)
      → All (λ c. c.ts ≤ t) candles
      → read_interval candles coin_id vs_currency interval (some t)
        ≡ read_interval candles coin_id vs_currency interval none
  unfolding read_interval
  read_interval-as_of candles coin_id vs_currency interval t h =
      filter_by-agree (λ c. of_interval coin_id vs_currency interval c && leb c.ts t)
        (λ c. of_interval coin_id vs_currency interval c && true) candles
        (All-map (λ (c : CoinCandle D). c.ts ≤ t)
          (λ c.
            (of_interval coin_id vs_currency interval c && leb c.ts t)
            ≡ (of_interval coin_id vs_currency interval c && true))
          (λ c k. ground arith) candles h)

  aggregate-as_of :
      (coverage : List IntervalCoverage) (candles : List (CoinCandle D))
      (coin_id vs_currency : String) (t : ℕ)
      → All (λ c. c.ts ≤ t) candles
      → aggregate_daily_from_finer coverage candles coin_id vs_currency (some t)
        ≡ aggregate_daily_from_finer coverage candles coin_id vs_currency none
  unfolding aggregate_daily_from_finer
  aggregate-as_of coverage candles coin_id vs_currency t h =
      elim (Option-cases (select_widest_source_interval coverage 86_400)) [
        | inl nothing ↦ ground (arith, nothing)
        | inr (interval, chosen) ↦
            ground (arith, chosen, read_interval-as_of candles coin_id vs_currency interval t h)
      ]

  -- A cutoff behind all candles does not show in the daily series.
  pub load_daily_series-as_of :
      (coverage : List IntervalCoverage) (candles : List (CoinCandle D))
      (coin_id vs_currency : String) (t : ℕ)
      → All (λ c. c.ts ≤ t) candles
      → load_daily_series coverage candles coin_id vs_currency (some t)
        ≡ load_daily_series coverage candles coin_id vs_currency none
  unfolding load_daily_series
  load_daily_series-as_of coverage candles coin_id vs_currency t h =
      ap
        (λ native.
          or_finer native
            (aggregate_daily_from_finer coverage candles coin_id vs_currency (some t)))
        (read_interval-as_of candles coin_id vs_currency "1d" t h)
      ∙ ap (or_finer (read_interval candles coin_id vs_currency "1d" none))
          (aggregate-as_of coverage candles coin_id vs_currency t h)
