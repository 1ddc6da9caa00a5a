-- ===== src/Alarm/Reconciler.antt =====
-- The condition functions of alarm/reconciler.rs and the decision of a sweep.
pub mod Sweep
pub mod Sustained
pub mod Sweeps
use crypto_collector.Prelude.{
  ℕ, ◌+◌, ◌-◌, String, Bool, true, false, Option, some, none, List, [], ◌∷◌, ◌++◌, map, ltb, leb,
  any, filter_by, not, ◌&&◌, ◌==◌, str_eq, if◌then◌else◌, sort_by, Ordering,
}
use Prim.Native.String.{compare as str_compare}
use crypto_collector.Table.{find, upsert, string_key}
use crypto_collector.Alarm.Catalog.{Condition, Severity, fingerprint, severity}
use crypto_collector.Alarm.Health.{
  ProviderHealth, HealthRegistry, tracked_providers, provider_snapshot, all_providers_down,
  tracked_workers, worker_restart_count_in_window,
}

abbrev pub stale : Option ℕ → ℕ → ℕ → Bool
stale none now threshold = true
stale (some last) now threshold = leb threshold (now - last)

unfoldable pub provider_unreachable_active : ProviderHealth → ℕ → ℕ → Bool
provider_unreachable_active snapshot now threshold =
    if snapshot.consecutive_network_failures == 0
    then false
    else stale snapshot.last_success_at now threshold

abbrev pub unreachable_of : HealthRegistry → ℕ → ℕ → List String → List Condition
unreachable_of r now threshold [] = []
unreachable_of r now threshold (provider ∷ rest) =
    let later = unreachable_of r now threshold rest in
    if provider_unreachable_active (provider_snapshot provider r) now threshold
    then Condition.provider_unreachable provider ∷ later
    else later

unfoldable pub registry_desired_conditions : HealthRegistry → ℕ → ℕ → List Condition
registry_desired_conditions r now threshold = unreachable_of r now threshold (tracked_providers r)

pub record PacerRow : Type 0 where
  pub provider : String
  pub cooldown_until : Option ℕ
  pub credit_limit : Option ℕ
  pub credits_used : ℕ

abbrev pub rate_limited_of : String → Option ℕ → ℕ → List Condition
rate_limited_of provider none now = []
rate_limited_of provider (some until) now =
    if ltb now until then Condition.provider_rate_limited provider ∷ [] else []

abbrev pub credit_exhausted_of : String → Option ℕ → ℕ → List Condition
credit_exhausted_of provider none credits_used = []
credit_exhausted_of provider (some limit) credits_used =
    if leb limit credits_used then Condition.provider_credit_exhausted provider ∷ [] else []

unfoldable pub pacer_rows_to_conditions : List PacerRow → ℕ → List Condition
pacer_rows_to_conditions [] now = []
pacer_rows_to_conditions (row ∷ rows) now =
    rate_limited_of row.provider row.cooldown_until now
    ++ credit_exhausted_of row.provider row.credit_limit row.credits_used
    ++ pacer_rows_to_conditions rows now

abbrev pub or_else : Option ℕ → ℕ → ℕ
or_else none now = now
or_else (some since) now = since

unfoldable pub sustained_state_update : Bool → Option ℕ → ℕ → Option ℕ
sustained_state_update condition_now since now =
    if condition_now then some (or_else since now) else none

unfoldable pub sustained_active : Option ℕ → ℕ → ℕ → Bool
sustained_active none now threshold = false
sustained_active (some t) now threshold = leb threshold (now - t)

unfoldable pub missing_pacer_conditions : List String → List PacerRow → List Condition
missing_pacer_conditions configured present_rows =
    let present = map (λ r. r.provider) present_rows in
    map Condition.missing_pacer_row (filter_by (λ name. not (any (str_eq name) present)) configured)

unfoldable pub worker_crashloop_conditions : HealthRegistry → ℕ → ℕ → ℕ → List Condition
worker_crashloop_conditions r now window threshold = map Condition.worker_crash_looping (
    filter_by (λ worker. leb threshold (worker_restart_count_in_window worker now window r))
      (tracked_workers r))

-- queue_failures_active, backfill_failed_active and coins_stalled_active on the count of a query.
unfoldable pub count_active : Option ℕ → ℕ → Bool
count_active none threshold = false
count_active (some count) threshold = leb threshold count

unfoldable pub pool_saturated : ℕ → ℕ → ℕ → Bool
pool_saturated size num_idle max_connections = (num_idle == 0) && leb max_connections size

unfoldable pub upsert_failures_active : ℕ → ℕ → Bool
upsert_failures_active streak threshold = leb threshold streak

pub record SweepActions : Type 0 where
  pub to_raise : List String
  pub fast_clear : List String

abbrev pub is_urgent : Severity → Bool
is_urgent Severity.warning = false
is_urgent Severity.error = true
is_urgent Severity.critical = true

-- `sort` on texts.
abbrev pub str_leb : String → String → Bool
str_leb a b = elim (str_compare a b) [
  | Ordering.lt ↦ true
  | Ordering.eq ↦ true
  | Ordering.gt ↦ false
]

abbrev pub has_fingerprint : List (String × Severity) → String → Bool
has_fingerprint desired fp = any (λ d. str_eq d.0 fp) desired

unfoldable pub compute_sweep_actions :
    List (String × Severity) → List (String × Severity) → SweepActions
compute_sweep_actions desired previously_active = record {
  to_raise = map (λ d. d.0) desired;
  fast_clear = sort_by str_leb (
      map (λ p. p.0)
        (filter_by (λ p. is_urgent p.1)
          (filter_by (λ p. not (has_fingerprint desired p.0)) previously_active)));
}
