-- ===== src/Providers/Ohlc.antt =====
-- `chain_fetch_ohlc` of providers/mod.rs: the answer and the records of the ordered fallback.
use crypto_collector.Prelude.{
  ℕ, Bool, Option, some, none, List, [], ◌∷◌, ◌++◌, ◌≡◌, append_empty, append_single, refl, arith,
  if◌then◌else◌,
}
use crypto_collector.Attempts.{AttemptRecord, ProviderOutcome, success, failure, unsupported, ohlc}
use crypto_collector.Alarm.Health.{HealthRegistry}
use crypto_collector.Providers.Answers.{answer_of, or_option, last_failure}
use crypto_collector.Providers.{
  Provider, Result, ok, err, ProviderError, Walk, ohlc_walk, ohlc_step, ohlc_error,
  chain_fetch_ohlc, is_nil, start,
}

-- The answer of the first supported provider whose fetch succeeds.
abbrev pub first_success : {A : Type 0} → List (Provider A) → Option A
first_success [] = none
first_success (p ∷ chain) =
    if p.supports then or_option (answer_of p.fetch) (first_success chain) else first_success chain

abbrev pub resolved : {A : Type 0} → Bool → Option ProviderError → Option A → Result A
resolved is_empty last (some v) = ok v
resolved is_empty last none = err (ohlc_error is_empty last)

abbrev pub outcome_of : {A : Type 0} → Result A → ProviderOutcome
outcome_of (ok v) = success
outcome_of (err e) = failure

abbrev pub record_of : {A : Type 0} → Provider A → ProviderOutcome → AttemptRecord
record_of p outcome = record { provider = p.name; capability = ohlc; outcome = outcome }

-- The records of an attempt, the walk ending at a success.
abbrev pub attempt_records :
    {A : Type 0} → Provider A → Result A → List AttemptRecord → List AttemptRecord
attempt_records p (ok v) later = record_of p success ∷ []
attempt_records p (err e) later = record_of p failure ∷ later

abbrev pub records_of : {A : Type 0} → List (Provider A) → List AttemptRecord
records_of [] = []
records_of (p ∷ chain) =
    if p.supports
    then attempt_records p p.fetch (records_of chain)
    else record_of p unsupported ∷ records_of chain

module _ {A : Type 0} where
  ohlc_walk_lem :
      (is_empty : Bool) (now : ℕ) (chain : List (Provider A)) (w : Walk)
      → ((ohlc_walk is_empty now chain w).0
          ≡ resolved is_empty (or_option (last_failure chain) w.last_err) (first_success chain))
        × ((ohlc_walk is_empty now chain w).1.records ≡ w.records ++ records_of chain)
  ohlc_walk_lem is_empty now [] w = (refl, append_empty w.records)
  ohlc_walk_lem is_empty now (p ∷ chain) w =
      let earlier = append_single w.records (records_of chain) in
      ground (
        arith,
        ohlc_walk_lem is_empty now chain (ohlc_step p w).0,
        earlier (record_of p success),
        earlier (record_of p failure),
        earlier (record_of p unsupported),
      )

  -- The chain answers with the candles of the first supported provider whose fetch succeeds. If none
  -- does, it reports the error of the last supported provider, and without a supported provider that
  -- the chain is empty or that none is capable. The records name the providers in order, up to the
  -- one that answered.
  pub chain_fetch_ohlc_lem :
      (now : ℕ) (chain : List (Provider A)) (registry : Option HealthRegistry)
      → ((chain_fetch_ohlc now chain registry).0
          ≡ resolved (is_nil chain) (last_failure chain) (first_success chain))
        × ((chain_fetch_ohlc now chain registry).1.records ≡ records_of chain)
  unfolding chain_fetch_ohlc
  chain_fetch_ohlc_lem now chain registry =
      let (result, records) = ohlc_walk_lem (is_nil chain) now chain (start registry) in
      (ground (arith, result), records)
