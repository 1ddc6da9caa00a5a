-- ===== src/Attempts.antt =====
-- The capabilities of providers and the records of single attempts (providers/mod.rs), which the
-- provider chains write and the health registry reads.
use crypto_collector.Prelude.{String}

pub data Capability : Type 0 where
  spot ohlc ohlc_range coin_metadata coin_market derivatives : Capability

pub data ProviderOutcome : Type 0 where
  success failure unsupported : ProviderOutcome

pub record AttemptRecord : Type 0 where
  pub provider : String
  pub capability : Capability
  pub outcome : ProviderOutcome
