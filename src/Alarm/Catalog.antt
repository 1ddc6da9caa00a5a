-- ===== src/Alarm/Catalog.antt =====
-- The catalogue of conditions of alarm/catalog.rs.
use crypto_collector.Prelude.{String, str_append}

pub data Severity : Type 0 where
  warning error critical : Severity

pub data Condition : Type 0 where
  provider_unreachable : String → Condition
  provider_rate_limited : String → Condition
  all_providers_down : Condition
  provider_credit_exhausted : String → Condition
  db_unreachable : Condition
  missing_pacer_row : String → Condition
  collection_queue_failures : Condition
  backfill_failed : Condition
  backfill_stalled : Condition
  worker_crash_looping : String → Condition
  startup_config_error : Condition
  coins_stalled : Condition
  db_pool_exhausted : Condition
  db_upsert_failures : Condition

unfoldable pub fingerprint : Condition → String
fingerprint (provider_unreachable provider) =
    str_append "crypto-collector:provider-unreachable:" provider
fingerprint (provider_rate_limited provider) =
    str_append "crypto-collector:provider-rate-limited:" provider
fingerprint all_providers_down = "crypto-collector:all-providers-down"
fingerprint (provider_credit_exhausted provider) =
    str_append "crypto-collector:provider-credit-exhausted:" provider
fingerprint db_unreachable = "crypto-collector:db-unreachable"
fingerprint (missing_pacer_row provider) = str_append "crypto-collector:missing-pacer-row:" provider
fingerprint collection_queue_failures = "crypto-collector:collection-queue-failures"
fingerprint backfill_failed = "crypto-collector:backfill-failed"
fingerprint backfill_stalled = "crypto-collector:backfill-stalled"
fingerprint (worker_crash_looping worker) =
    str_append "crypto-collector:worker-crash-looping:" worker
fingerprint startup_config_error = "crypto-collector:startup-config-error"
fingerprint coins_stalled = "crypto-collector:coins-stalled"
fingerprint db_pool_exhausted = "crypto-collector:db-pool-exhausted"
fingerprint db_upsert_failures = "crypto-collector:db-upsert-failures"

unfoldable pub component : Condition → String
component (provider_unreachable _) = "providers"
component (provider_rate_limited _) = "pacer"
component all_providers_down = "providers"
component (provider_credit_exhausted _) = "pacer"
component db_unreachable = "db"
component (missing_pacer_row _) = "pacer"
component collection_queue_failures = "collection_queue"
component backfill_failed = "backfill"
component backfill_stalled = "backfill"
component (worker_crash_looping _) = "collectors"
component startup_config_error = "config"
component coins_stalled = "live_poller"
component db_pool_exhausted = "db"
component db_upsert_failures = "db"

unfoldable pub severity : Condition → Severity
severity (provider_unreachable _) = warning
severity (provider_rate_limited _) = warning
severity all_providers_down = critical
severity (provider_credit_exhausted _) = error
severity db_unreachable = critical
severity (missing_pacer_row _) = error
severity collection_queue_failures = warning
severity backfill_failed = warning
severity backfill_stalled = warning
severity (worker_crash_looping _) = error
severity startup_config_error = critical
severity coins_stalled = warning
severity db_pool_exhausted = error
severity db_upsert_failures = error

unfoldable pub code : Condition → String
code (provider_unreachable _) = "PROVIDER_UNREACHABLE"
code (provider_rate_limited _) = "PROVIDER_RATE_LIMITED"
code all_providers_down = "ALL_PROVIDERS_DOWN"
code (provider_credit_exhausted _) = "PROVIDER_CREDIT_EXHAUSTED"
code db_unreachable = "DB_UNREACHABLE"
code (missing_pacer_row _) = "MISSING_PACER_ROW"
code collection_queue_failures = "COLLECTION_QUEUE_FAILURES"
code backfill_failed = "BACKFILL_FAILED"
code backfill_stalled = "BACKFILL_STALLED"
code (worker_crash_looping _) = "WORKER_CRASH_LOOPING"
code startup_config_error = "STARTUP_CONFIG_ERROR"
code coins_stalled = "COINS_STALLED"
code db_pool_exhausted = "DB_POOL_EXHAUSTED"
code db_upsert_failures = "DB_UPSERT_FAILURES"
