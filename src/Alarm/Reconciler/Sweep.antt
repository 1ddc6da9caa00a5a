-- ===== src/Alarm/Reconciler/Sweep.antt =====
-- A sweep of alarm/reconciler.rs. What it reads of the database, the pool and the clocks is one
-- record, with `none` where a query failed; what it sends to the alarm center is a list.
use crypto_collector.Prelude.{
  ℕ, String, Bool, true, false, Option, some, none, List, [], ◌∷◌, ◌++◌, map, not, if◌then◌else◌,
}
use crypto_collector.Table.{upsert, string_key}
use crypto_collector.Alarm.Catalog.{Condition, Severity, fingerprint, severity}
use crypto_collector.Alarm.Health.{HealthRegistry, all_providers_down}
use crypto_collector.Alarm.Reconciler.{
  registry_desired_conditions, PacerRow, pacer_rows_to_conditions, sustained_state_update,
  sustained_active, missing_pacer_conditions, worker_crashloop_conditions, count_active,
  pool_saturated, upsert_failures_active, compute_sweep_actions,
}

pub record Thresholds : Type 0 where
  pub provider_unreachable : ℕ
  pub all_down : ℕ
  pub db_unreachable : ℕ
  pub queue_failed_threshold : ℕ
  pub backfill_failed_threshold : ℕ
  pub worker_crashloop_threshold : ℕ
  pub worker_crashloop_window : ℕ
  pub coins_stalled_threshold : ℕ
  pub db_pool_saturation : ℕ
  pub upsert_failure_streak : ℕ

-- What one sweep reads. The windows of the counting queries are applied by the database.
pub record Readings : Type 0 where
  pub now : ℕ
  pub wall_now : ℕ
  pub provider_names : List String
  pub pacer_rows : Option (List PacerRow)
  pub db_ok : Bool
  pub queue_failed : Option ℕ
  pub backfill_failed : Option ℕ
  pub backfill_stalled : Option Bool
  pub coins_stalled : Option ℕ
  pub pool_size : ℕ
  pub num_idle : ℕ
  pub max_connections : ℕ

pub record Reconciler : Type 0 where
  pub previously_active : List (String × Severity)
  pub all_down_since : Option ℕ
  pub db_unreachable_since : Option ℕ
  pub pool_saturation_since : Option ℕ
  pub first_sweep_done : Bool

pub data Sent : Type 0 where
  -- With the count of stalled coins, where the condition carries it.
  raise : Condition → Option ℕ → Sent
  clear : String → Sent

abbrev pub when : Bool → Condition → List Condition
when b c = if b then c ∷ [] else []

abbrev pub pacer_conditions : Readings → Option (List PacerRow) → List Condition
pacer_conditions s none = []
pacer_conditions s (some rows) =
    pacer_rows_to_conditions rows s.wall_now ++ missing_pacer_conditions s.provider_names rows

abbrev pub is_stalled : Option Bool → Bool
is_stalled none = false
is_stalled (some b) = b

-- The three sustained markers after the readings of a sweep.
unfoldable pub mark : HealthRegistry → Readings → Reconciler → Reconciler
mark r s c = record c {
  all_down_since = sustained_state_update (all_providers_down r) c.all_down_since s.now;
  db_unreachable_since = sustained_state_update (not s.db_ok) c.db_unreachable_since s.now;
  pool_saturation_since =
      sustained_state_update (pool_saturated s.pool_size s.num_idle s.max_connections)
        c.pool_saturation_since s.now;
}

-- The conditions of a sweep, in the order in which it pushes them, from the markers just set.
unfoldable pub sweep_conditions :
    Thresholds → HealthRegistry → Readings → Reconciler → List Condition
sweep_conditions h r s c =
    registry_desired_conditions r s.now h.provider_unreachable
    ++ when (sustained_active c.all_down_since s.now h.all_down) Condition.all_providers_down
    ++ pacer_conditions s s.pacer_rows
    ++ when (sustained_active c.db_unreachable_since s.now h.db_unreachable)
        Condition.db_unreachable
    ++ when (count_active s.queue_failed h.queue_failed_threshold)
        Condition.collection_queue_failures
    ++ when (count_active s.backfill_failed h.backfill_failed_threshold) Condition.backfill_failed
    ++ when (is_stalled s.backfill_stalled) Condition.backfill_stalled
    ++ worker_crashloop_conditions r s.now h.worker_crashloop_window h.worker_crashloop_threshold
    ++ when (count_active s.coins_stalled h.coins_stalled_threshold) Condition.coins_stalled
    ++ when (sustained_active c.pool_saturation_since s.now h.db_pool_saturation)
        Condition.db_pool_exhausted
    ++ when (upsert_failures_active r.upsert_streak h.upsert_failure_streak)
        Condition.db_upsert_failures

abbrev pub described : Condition → String × Severity
described c = (fingerprint c, severity c)

-- `raise` with the stalled count for `coins_stalled` alone.
abbrev pub raise_of : Readings → Condition → Sent
raise_of s Condition.coins_stalled = raise Condition.coins_stalled s.coins_stalled
raise_of s c = raise c none

-- `desired.into_iter().collect()` into a map: a later pair replaces the severity of an earlier one.
abbrev pub collect : List (String × Severity) → List (String × Severity) → List (String × Severity)
collect [] m = m
collect (d ∷ ds) m = collect ds (upsert d.0 d.1 (λ sev. d.1) m)

unfoldable pub sweep_once :
    Thresholds → HealthRegistry → Readings → Reconciler → Reconciler × List Sent
sweep_once h r s c =
    let greeting =
      if c.first_sweep_done then [] else clear (fingerprint Condition.startup_config_error) ∷ [] in
    let marked = mark r s c in
    let conditions = sweep_conditions h r s marked in
    let desired = map described conditions in
    let actions = compute_sweep_actions desired c.previously_active in
    (
      record marked { previously_active = collect desired []; first_sweep_done = true },
      greeting ++ map (raise_of s) conditions ++ map clear actions.fast_clear,
    )
