-- ===== src/Alarm/Health.antt =====
-- The health registry of alarm/registry.rs. Its maps are association lists, whose order stands for
-- the order in which a HashMap is iterated. A reading of `Instant::now()` is an argument. Failure
-- streaks of a provider are taken to stay below 2 ^ 32; the upsert streak wraps there.
pub mod Streaks
pub mod Outcomes
pub mod Restarts
use crypto_collector.Prelude.{
  ℕ, ◌+◌, ◌*◌, ◌-◌, ◌%◌, ◌^◌, String, Bool, true, false, Option, some, none, List, [], ◌∷◌, ◌++◌,
  map, ltb, any, filter_by, length, not, if◌then◌else◌,
}
use crypto_collector.Attempts.{AttemptRecord, ProviderOutcome, success, failure, unsupported}
use crypto_collector.Table.{find, upsert, string_key}

abbrev pub worker_restart_retention : ℕ
worker_restart_retention = 24 * 3600 * 1_000_000_000

pub record ProviderHealth : Type 0 where
  pub last_success_at : Option ℕ
  pub consecutive_network_failures : ℕ

abbrev pub never_observed : ProviderHealth
never_observed = record { last_success_at = none; consecutive_network_failures = 0 }

pub record HealthRegistry : Type 0 where
  pub providers : List (String × ProviderHealth)
  pub last_all_failed_at : Option ℕ
  pub last_chain_success_at : Option ℕ
  pub worker_restarts : List (String × List ℕ)
  pub upsert_streak : ℕ

abbrev pub new_registry : HealthRegistry
new_registry = record {
  providers = [];
  last_all_failed_at = none;
  last_chain_success_at = none;
  worker_restarts = [];
  upsert_streak = 0;
}

unfoldable pub chain_all_failed_now : Option ℕ → Option ℕ → Bool
chain_all_failed_now none succeeded = false
chain_all_failed_now (some failed) none = true
chain_all_failed_now (some failed) (some succeeded) = ltb succeeded failed

unfoldable pub record_provider_success : ℕ → String → HealthRegistry → HealthRegistry
record_provider_success now provider r = record r {
  providers =
      upsert provider never_observed
        (λ h. record h { last_success_at = some now; consecutive_network_failures = 0 })
        r.providers;
}

unfoldable pub record_provider_network_failure : String → HealthRegistry → HealthRegistry
record_provider_network_failure provider r = record r {
  providers =
      upsert provider never_observed
        (λ h. record h { consecutive_network_failures = h.consecutive_network_failures + 1 })
        r.providers;
}

unfoldable pub provider_snapshot : String → HealthRegistry → ProviderHealth
provider_snapshot provider r = elim (find provider r.providers) [
  | none ↦ never_observed
  | some h ↦ h
]

unfoldable pub tracked_providers : HealthRegistry → List String
tracked_providers r = map (λ e. e.0) r.providers

unfoldable pub record_chain_all_failed : ℕ → HealthRegistry → HealthRegistry
record_chain_all_failed now r = record r { last_all_failed_at = some now }

unfoldable pub record_chain_success : ℕ → HealthRegistry → HealthRegistry
record_chain_success now r = record r { last_chain_success_at = some now }

unfoldable pub all_providers_down : HealthRegistry → Bool
all_providers_down r = chain_all_failed_now r.last_all_failed_at r.last_chain_success_at

abbrev pub is_unsupported : AttemptRecord → Bool
is_unsupported a = elim a.outcome [ success ↦ false | failure ↦ false | unsupported ↦ true ]

abbrev pub is_success : AttemptRecord → Bool
is_success a = elim a.outcome [ success ↦ true | failure ↦ false | unsupported ↦ false ]

-- Of the attempted records: none is no evidence, one success is a success, and else all failed.
abbrev pub outcome_of : ℕ → List AttemptRecord → HealthRegistry → HealthRegistry
outcome_of now [] r = r
outcome_of now (a ∷ attempted) r =
    if any is_success (a ∷ attempted)
    then record_chain_success now r
    else record_chain_all_failed now r

unfoldable pub observe_chain_records : ℕ → List AttemptRecord → HealthRegistry → HealthRegistry
observe_chain_records now records r =
    outcome_of now (filter_by (λ a. not (is_unsupported a)) records) r

-- `events.push(now)` and `events.retain(…)`.
unfoldable pub push_restart : ℕ → List ℕ → List ℕ
push_restart now events =
    filter_by (λ t. ltb (now - t) worker_restart_retention) (events ++ now ∷ [])

unfoldable pub record_worker_restart : ℕ → String → HealthRegistry → HealthRegistry
record_worker_restart now worker r = record r {
  worker_restarts = upsert worker [] (push_restart now) r.worker_restarts;
}

abbrev pub in_last : ℕ → ℕ → ℕ → Bool
in_last now window t = ltb (now - t) window

-- The count is cast to 32 bits.
unfoldable pub worker_restart_count_in_window : String → ℕ → ℕ → HealthRegistry → ℕ
worker_restart_count_in_window worker now window r = elim (find worker r.worker_restarts) [
  | none ↦ 0
  | some events ↦ length (filter_by (in_last now window) events) % 2 ^ 32
]

unfoldable pub tracked_workers : HealthRegistry → List String
tracked_workers r = map (λ e. e.0) r.worker_restarts

unfoldable pub record_upsert_failure : HealthRegistry → HealthRegistry
record_upsert_failure r = record r { upsert_streak = (r.upsert_streak + 1) % 2 ^ 32 }

unfoldable pub record_upsert_success : HealthRegistry → HealthRegistry
record_upsert_success r = record r { upsert_streak = 0 }
