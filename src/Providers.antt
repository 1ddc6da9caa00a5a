-- ===== src/Providers.antt =====
-- The provider chains of providers/mod.rs. A provider is what the chain sees of it: its name, whether
-- it supports the capability, what the pacer and the fetch answer if the chain calls them, and the
-- clock at that answer. The registry is the optional health registry that the chain pokes.
pub mod Answers
pub mod Ohlc
pub mod Range
pub mod Fallback
use crypto_collector.Prelude.{
  ℕ, String, Bool, true, false, Option, some, none, List, [], ◌∷◌, ◌++◌, leb, ◌&&◌, ◌||◌, ◌==◌,
  if◌then◌else◌,
}
use crypto_collector.Pacer.{AcquireSlotError}
use crypto_collector.Attempts.{
  Capability, ohlc, ohlc_range, AttemptRecord, ProviderOutcome, success, failure, unsupported,
}
use crypto_collector.Alarm.Health.{
  HealthRegistry, record_provider_success, record_provider_network_failure, observe_chain_records,
  record_chain_success, record_chain_all_failed,
}

pub data ProviderError : Type 0 where
  not_supported : Capability → ProviderError
  no_capable_provider : Capability → ProviderError
  rate_limited : ProviderError
  http : ℕ → String → ProviderError
  credit_exhausted : ProviderError
  parse : String → ProviderError
  network : String → ProviderError
  pacer : AcquireSlotError → ProviderError
  other : String → ProviderError

-- 408 | 425 | 429 | 500..=599
abbrev pub is_transient_status : ℕ → Bool
is_transient_status status =
    (status == 408) || (status == 425) || (status == 429) || leb 500 status && leb status 599

unfoldable pub is_transient : ProviderError → Bool
is_transient rate_limited = true
is_transient (network _) = true
is_transient (http status body) = is_transient_status status
is_transient _ = false

pub data Result (A : Type 0) : Type 0 where
  ok : A → Result A
  err : ProviderError → Result A

pub record Provider (A : Type 0) : Type 0 where
  pub name : String
  pub supports : Bool
  pub pace : Option AcquireSlotError
  pub fetch : Result A
  pub at : ℕ

abbrev pub poke : (HealthRegistry → HealthRegistry) → Option HealthRegistry → Option HealthRegistry
poke f none = none
poke f (some r) = some (f r)

-- A network error alone counts against the provider.
abbrev pub fetch_failed : String → ProviderError → Option HealthRegistry → Option HealthRegistry
fetch_failed name (network _) reg = poke (record_provider_network_failure name) reg
fetch_failed name _ reg = reg

-- What a chain carries from one provider to the next.
pub record Walk : Type 0 where
  pub records : List AttemptRecord
  pub last_err : Option ProviderError
  pub registry : Option HealthRegistry

abbrev pub with_record : Capability → String → ProviderOutcome → Walk → Walk
with_record capability name outcome w = record w {
  records =
      w.records ++ record { provider = name; capability = capability; outcome = outcome } ∷ [];
}

abbrev pub observed : ℕ → Walk → Walk
observed now w = record w { registry = poke (observe_chain_records now w.records) w.registry }

-- What a chain of OHLC reports when no provider answered.
abbrev pub ohlc_error : Bool → Option ProviderError → ProviderError
ohlc_error is_empty (some e) = e
ohlc_error true none = other "empty provider chain"
ohlc_error false none = no_capable_provider ohlc

abbrev pub start : Option HealthRegistry → Walk
start registry = record { records = []; last_err = none; registry = registry }

abbrev pub is_nil : {B : Type 0} → List B → Bool
is_nil [] = true
is_nil (x ∷ xs) = false

module _ {A : Type 0} where
  -- The `Ok` and `Err` arms of the OHLC chains, up to the return.
  abbrev pub succeed : Provider A → Walk → Walk
  succeed p w =
      with_record ohlc p.name success
        (record w { registry = poke (record_provider_success p.at p.name) w.registry })

  abbrev pub fail : Provider A → ProviderError → Walk → Walk
  fail p e w =
      with_record ohlc p.name failure
        (record w { last_err = some e; registry = fetch_failed p.name e w.registry })

  -- One supported provider of `chain_fetch_ohlc`: the walk, and the candles if it returns them.
  abbrev pub ohlc_attempt : Provider A → Result A → Walk → Walk × Option A
  ohlc_attempt p (ok v) w = (succeed p w, some v)
  ohlc_attempt p (err e) w = (fail p e w, none)

  abbrev pub ohlc_step : Provider A → Walk → Walk × Option A
  ohlc_step p w =
      if p.supports then ohlc_attempt p p.fetch w else (with_record ohlc p.name unsupported w, none)

  -- `now` is the clock at the observation of the records.
  abbrev pub ohlc_walk : Bool → ℕ → List (Provider A) → Walk → Result A × Walk
  ohlc_walk is_empty now [] w = (err (ohlc_error is_empty w.last_err), observed now w)
  ohlc_walk is_empty now (p ∷ chain) w =
      let (w', answer) = ohlc_step p w in
      elim answer [ none ↦ ohlc_walk is_empty now chain w' | some v ↦ (ok v, observed now w') ]

  unfoldable pub chain_fetch_ohlc : ℕ → List (Provider A) → Option HealthRegistry → Result A × Walk
  chain_fetch_ohlc now chain registry = ohlc_walk (is_nil chain) now chain (start registry)

  -- The range chain: an empty page is a success of the provider that returns nothing yet.
  abbrev pub range_attempt : Provider (List A) → Result (List A) → Walk → Walk × Option (List A)
  range_attempt p (ok []) w = (
    with_record ohlc_range p.name success
        (record w { registry = poke (record_provider_success p.at p.name) w.registry }),
    none,
  )
  range_attempt p (ok (c ∷ cs)) w = (
    with_record ohlc_range p.name success
        (record w { registry = poke (record_provider_success p.at p.name) w.registry }),
    some (c ∷ cs),
  )
  range_attempt p (err e) w = (
    with_record ohlc_range p.name failure
        (record w { last_err = some e; registry = fetch_failed p.name e w.registry }),
    none,
  )

  abbrev pub range_step : Provider (List A) → Walk → Walk × Option (List A)
  range_step p w =
      if p.supports
      then range_attempt p p.fetch w
      else (with_record ohlc_range p.name unsupported w, none)

  abbrev pub range_result : Option ProviderError → Result (List A)
  range_result (some e) = err e
  range_result none = ok []

  abbrev pub range_walk : ℕ → List (Provider (List A)) → Walk → Result (List A) × Walk
  range_walk now [] w = (range_result w.last_err, observed now w)
  range_walk now (p ∷ chain) w =
      let (w', answer) = range_step p w in
      elim answer [ none ↦ range_walk now chain w' | some v ↦ (ok v, observed now w') ]

  unfoldable pub chain_fetch_ohlc_range :
      ℕ → List (Provider (List A)) → Option HealthRegistry → Result (List A) × Walk
  chain_fetch_ohlc_range now chain registry = range_walk now chain (start registry)

-- What `chain_try` carries.
pub record Attempts : Type 0 where
  pub last_fetch_err : Option ProviderError
  pub last_pace_err : Option AcquireSlotError
  pub registry : Option HealthRegistry

abbrev pub try_nothing : Capability → Bool → Option AcquireSlotError → ProviderError
try_nothing capability is_empty (some e) = pacer e
try_nothing capability true none = other "empty provider chain"
try_nothing capability false none = no_capable_provider capability

module _ {A : Type 0} where
  abbrev pub try_fetch : Provider A → Result A → Attempts → Attempts × Option A
  try_fetch p (ok v) a = (
    record a {
      registry =
          poke (record_chain_success p.at) (poke (record_provider_success p.at p.name) a.registry);
    },
    some v,
  )
  try_fetch p (err e) a =
      (record a { last_fetch_err = some e; registry = fetch_failed p.name e a.registry }, none)

  -- The pacer is asked for the provider that is about to serve; a refusal skips it.
  abbrev pub try_paced : Provider A → Option AcquireSlotError → Attempts → Attempts × Option A
  try_paced p none a = try_fetch p p.fetch a
  try_paced p (some e) a = (record a { last_pace_err = some e }, none)

  abbrev pub try_step : Provider A → Attempts → Attempts × Option A
  try_step p a = if p.supports then try_paced p p.pace a else (a, none)

  -- The `match` after the loop.
  abbrev pub try_error :
      Capability → Bool → ℕ → Option ProviderError → Attempts → Result A × Option HealthRegistry
  try_error capability is_empty now (some e) a =
      (err e, poke (record_chain_all_failed now) a.registry)
  try_error capability is_empty now none a =
      (err (try_nothing capability is_empty a.last_pace_err), a.registry)

  abbrev pub try_walk :
      Capability → Bool → ℕ → List (Provider A) → Attempts → Result A × Option HealthRegistry
  try_walk capability is_empty now [] a = try_error capability is_empty now a.last_fetch_err a
  try_walk capability is_empty now (p ∷ chain) a =
      let (a', answer) = try_step p a in
      elim answer [
        | none ↦ try_walk capability is_empty now chain a'
        | some v ↦ (ok v, a'.registry)
      ]

  unfoldable pub chain_try :
      Capability → ℕ → List (Provider A) → Option HealthRegistry → Result A × Option HealthRegistry
  chain_try capability now chain registry =
      try_walk capability (is_nil chain) now chain
        (record { last_fetch_err = none; last_pace_err = none; registry = registry })
