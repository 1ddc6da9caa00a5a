-- ===== src/Tests/Alarm.antt =====
-- Witnesses for the properties of the alarms.
use crypto_collector.Prelude.{
  none, not, ◌||◌, ℕ, ◌-◌, ◌%◌, ◌^◌, ◌&&◌, String, Bool, true, false, some, List, [], ◌∷◌, ◌≡◌,
  arith, any, leb, length, filter_by, str_eq,
}
use crypto_collector.Attempts.{AttemptRecord, ohlc, success, failure}
use crypto_collector.Pacer.{UpstreamRequestPacer, reserve_row}
use crypto_collector.Alarm.Health.{
  new_registry, provider_snapshot, all_providers_down, worker_restart_count_in_window, in_last,
}
use crypto_collector.Alarm.Health.Streaks.{
  Report, succeeded, unreachable, after_reports, streak, last_success,
  provider_snapshot-after_reports,
}
use crypto_collector.Alarm.Health.Outcomes.{
  Fetch, after_fetches, down_after, all_providers_down-after_fetches,
}
use crypto_collector.Alarm.Health.Restarts.{after_restarts, worker_restart_count-after_restarts}
use crypto_collector.Alarm.Catalog.{Severity, Condition, fingerprint}
use crypto_collector.Alarm.Reconciler.Sweep.{Thresholds, Readings, Reconciler, sweep_once}
use crypto_collector.Alarm.Reconciler.{has_fingerprint, sustained_active, pacer_rows_to_conditions}
use crypto_collector.Alarm.Reconciler.Sustained.{
  marker, leading, sustained_active-marker, seen, is_quiet, is_taken,
  pacer_rows_to_conditions-reserve_row,
}
use crypto_collector.Alarm.Reconciler.Sweeps.{is_clear, is_recovered, desired_of, sweep_once_lem}

abbrev reports : List Report
reports =
    unreachable "kraken" ∷ unreachable "binance" ∷ unreachable "kraken" ∷ succeeded "kraken" 5 ∷ []

provider_snapshot-after_reports_example :
    ((provider_snapshot "kraken" (after_reports reports)).consecutive_network_failures
      ≡ streak "kraken" reports)
    × ((provider_snapshot "kraken" (after_reports reports)).last_success_at
        ≡ last_success "kraken" reports)
provider_snapshot-after_reports_example = provider_snapshot-after_reports "kraken" reports

abbrev attempt_failed : AttemptRecord
attempt_failed = record { provider = "kraken"; capability = ohlc; outcome = failure }

abbrev attempt_served : AttemptRecord
attempt_served = record { provider = "binance"; capability = ohlc; outcome = success }

abbrev fetches : List Fetch
fetches = (8, attempt_failed ∷ []) ∷ (3, attempt_failed ∷ attempt_served ∷ []) ∷ []

all_providers_down-after_fetches_example :
    all_providers_down (after_fetches fetches) ≡ down_after fetches
all_providers_down-after_fetches_example =
    all_providers_down-after_fetches 9 fetches (omega arith, (omega arith, tt))

worker_restart_count-after_restarts_example :
    worker_restart_count_in_window "backfill" 100 50 (after_restarts "backfill" (90 ∷ 40 ∷ []))
    ≡ length (filter_by (in_last 100 50) (90 ∷ 40 ∷ [])) % 2 ^ 32
worker_restart_count-after_restarts_example =
    worker_restart_count-after_restarts "backfill" 100 50 (90 ∷ 40 ∷ []) (omega arith)
      (omega arith, (omega arith, tt))

abbrev readings : List (ℕ × Bool)
readings = (60, true) ∷ (30, true) ∷ (20, false) ∷ []

sustained_active-marker_example :
    sustained_active (marker readings) 60 25 ≡ any (λ t. leb 25 (60 - t)) (leading readings)
sustained_active-marker_example =
    sustained_active-marker 60 60 25 readings (omega arith, (omega arith, (omega arith, tt)))

abbrev spent_row : UpstreamRequestPacer
spent_row = record {
  next_allowed_at = 0;
  min_gap_ms = 2;
  cooldown_until = some 40;
  credit_window_start = 0;
  credits_used = 6;
  credit_limit = some 6;
  updated_at = 0;
}

pacer_rows_to_conditions-reserve_row_example :
    is_quiet (pacer_rows_to_conditions (seen "kraken" spent_row ∷ []) 30)
    ≡ is_taken (reserve_row 30 spent_row)
pacer_rows_to_conditions-reserve_row_example =
    pacer_rows_to_conditions-reserve_row "kraken" spent_row 30

abbrev active : List (String × Severity)
active = ("a", Severity.critical) ∷ ("b", Severity.warning) ∷ []

abbrev thresholds : Thresholds
thresholds = record {
  provider_unreachable = 600;
  all_down = 300;
  db_unreachable = 60;
  queue_failed_threshold = 5;
  backfill_failed_threshold = 3;
  worker_crashloop_threshold = 3;
  worker_crashloop_window = 600;
  coins_stalled_threshold = 1;
  db_pool_saturation = 60;
  upsert_failure_streak = 5;
}

abbrev quiet_readings : Readings
quiet_readings = record {
  now = 1000;
  wall_now = 1000;
  provider_names = "kraken" ∷ [];
  pacer_rows = some (
      record {
        provider = "kraken";
        cooldown_until = some 2000;
        credit_limit = none;
        credits_used = 0;
      }
      ∷ []);
  db_ok = true;
  queue_failed = some 1;
  backfill_failed = none;
  backfill_stalled = some false;
  coins_stalled = some 0;
  pool_size = 2;
  num_idle = 1;
  max_connections = 5;
}

abbrev alarmed : Reconciler
alarmed = record {
  previously_active = active;
  all_down_since = none;
  db_unreachable_since = none;
  pool_saturation_since = none;
  first_sweep_done = true;
}

sweep_once_lem_example :
    (any (is_clear "a") (sweep_once thresholds new_registry quiet_readings alarmed).1 ≡ (
      not alarmed.first_sweep_done && str_eq "a" (fingerprint Condition.startup_config_error)
      || any
          (λ p.
            str_eq "a" p.0
            && is_recovered (desired_of thresholds new_registry quiet_readings alarmed) p)
          alarmed.previously_active))
    × (has_fingerprint
          (sweep_once thresholds new_registry quiet_readings alarmed).0.previously_active
          "a"
        ≡ has_fingerprint (desired_of thresholds new_registry quiet_readings alarmed) "a")
sweep_once_lem_example = sweep_once_lem thresholds new_registry quiet_readings alarmed "a"
