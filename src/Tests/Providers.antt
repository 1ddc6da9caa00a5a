-- ===== src/Tests/Providers.antt =====
-- Witnesses for the properties of the provider chains.
use crypto_collector.Prelude.{ℕ, true, false, some, none, List, [], ◌∷◌, ◌≡◌}
use crypto_collector.Attempts.{spot}
use crypto_collector.Pacer.{AcquireSlotError}
use crypto_collector.Alarm.Health.{new_registry}
use crypto_collector.Providers.{
  Provider, ok, err, ProviderError, chain_fetch_ohlc, chain_fetch_ohlc_range, chain_try, is_nil,
}
use crypto_collector.Providers.Answers.{last_failure}
use crypto_collector.Providers.Ohlc.{resolved, first_success, records_of, chain_fetch_ohlc_lem}
use crypto_collector.Providers.Range.{range_resolved, first_page, chain_fetch_ohlc_range_lem}
use crypto_collector.Providers.Fallback.{
  settled_by, first_served, last_fetch_failure, last_refusal, failed_of, failed_stamp, success_of,
  success_stamp, kept_in, chain_try_lem,
}

abbrev pages : List (Provider (List ℕ))
pages =
    record { name = "coinbase"; supports = false; pace = none; fetch = ok (1 ∷ []); at = 1 }
    ∷ record {
      name = "kraken";
      supports = true;
      pace = some (AcquireSlotError.cooldown "kraken" 9);
      fetch = err (ProviderError.http 500 "down");
      at = 2;
    }
    ∷ record { name = "binance"; supports = true; pace = none; fetch = ok []; at = 3 }
    ∷ record { name = "bitstamp"; supports = true; pace = none; fetch = ok (7 ∷ []); at = 4 }
    ∷ []

chain_fetch_ohlc_lem_example :
    ((chain_fetch_ohlc 5 pages (some new_registry)).0
      ≡ resolved (is_nil pages) (last_failure pages) (first_success pages))
    × ((chain_fetch_ohlc 5 pages (some new_registry)).1.records ≡ records_of pages)
chain_fetch_ohlc_lem_example = chain_fetch_ohlc_lem 5 pages (some new_registry)

chain_fetch_ohlc_range_lem_example :
    (chain_fetch_ohlc_range 5 pages (some new_registry)).0
    ≡ range_resolved (last_failure pages) (first_page pages)
chain_fetch_ohlc_range_lem_example = chain_fetch_ohlc_range_lem 5 pages (some new_registry)

chain_try_lem_example :
    let done = chain_try spot 5 pages (some new_registry) in
    (done.0
      ≡ settled_by spot
          (is_nil pages)
          (first_served pages)
          (last_fetch_failure pages)
          (last_refusal pages))
    × (failed_of done.1
        ≡ kept_in (some new_registry) (
            failed_stamp 5
              (first_served pages)
              (last_fetch_failure pages)
              (failed_of (some new_registry))))
    × (success_of done.1
        ≡ kept_in
            (some new_registry)
            (success_stamp (first_served pages) (success_of (some new_registry))))
chain_try_lem_example = chain_try_lem spot 5 pages (some new_registry)
