-- ===== src/Providers/Range.antt =====
-- `chain_fetch_ohlc_range` of providers/mod.rs: data of any provider wins, and no error is masked.
use crypto_collector.Prelude.{ℕ, Option, some, none, List, [], ◌∷◌, ◌≡◌, refl, arith, if◌then◌else◌}
use crypto_collector.Alarm.Health.{HealthRegistry}
use crypto_collector.Providers.Answers.{or_option, last_failure}
use crypto_collector.Providers.{
  Provider, Result, ok, err, ProviderError, Walk, range_walk, range_step, range_result,
  chain_fetch_ohlc_range, start,
}

abbrev pub page_of : {A : Type 0} → Result (List A) → Option (List A)
page_of (ok []) = none
page_of (ok (c ∷ cs)) = some (c ∷ cs)
page_of (err e) = none

-- The first page with a candle that a supported provider returns.
abbrev pub first_page : {A : Type 0} → List (Provider (List A)) → Option (List A)
first_page [] = none
first_page (p ∷ chain) =
    if p.supports then or_option (page_of p.fetch) (first_page chain) else first_page chain

-- The answer from the last error and the first page with a candle.
abbrev pub range_resolved : {A : Type 0} → Option ProviderError → Option (List A) → Result (List A)
range_resolved last (some page) = ok page
range_resolved (some e) none = err e
range_resolved none none = ok []

module _ {A : Type 0} where
  resolved : (last : Option ProviderError) → range_result {A = A} last ≡ range_resolved last none
  resolved (some e) = refl
  resolved none = refl

  range_walk_lem :
      (now : ℕ) (chain : List (Provider (List A))) (w : Walk)
      → (range_walk now chain w).0
        ≡ range_resolved (or_option (last_failure chain) w.last_err) (first_page chain)
  range_walk_lem now [] w = resolved w.last_err
  range_walk_lem now (p ∷ chain) w = ground (arith, range_walk_lem now chain (range_step p w).0)

  -- The range chain answers with the first page that holds a candle. Without one it reports the last
  -- error of any supported provider, and answers an empty page exactly if no supported provider
  -- failed: an empty page never masks an error.
  pub chain_fetch_ohlc_range_lem :
      (now : ℕ) (chain : List (Provider (List A))) (registry : Option HealthRegistry)
      → (chain_fetch_ohlc_range now chain registry).0
        ≡ range_resolved (last_failure chain) (first_page chain)
  unfolding chain_fetch_ohlc_range
  chain_fetch_ohlc_range_lem now chain registry =
      ground (arith, range_walk_lem now chain (start registry))
