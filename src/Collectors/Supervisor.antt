-- ===== src/Collectors/Supervisor.antt =====
-- The supervisor of background tasks in collectors/mod.rs. Durations are numbers of nanoseconds. The
-- environment of the loop is the list of the runs that the task makes.
pub mod Backoff
use crypto_collector.Prelude.{
  ℕ, ◌*◌, min, String, Bool, true, false, Option, some, none, List, [], ◌∷◌, leb, if◌then◌else◌,
}
use crypto_collector.Alarm.Health.{HealthRegistry, record_worker_restart}
use crypto_collector.Providers.{poke}
use crypto_collector.Collectors.Lease.{second}

abbrev pub supervise_initial_backoff : ℕ
supervise_initial_backoff = 1 * second

abbrev pub supervise_max_backoff : ℕ
supervise_max_backoff = 30 * second

abbrev pub supervise_healthy_reset : ℕ
supervise_healthy_reset = 60 * second

unfoldable pub next_backoff : ℕ → ℕ
next_backoff current = min (current * 2) supervise_max_backoff

-- The delay to sleep now and the backoff for the next restart.
unfoldable pub supervise_next_delay : ℕ → ℕ → ℕ × ℕ
unfolding next_backoff
supervise_next_delay current uptime =
    let delay = if leb supervise_healthy_reset uptime then supervise_initial_backoff else current in
    (delay, next_backoff delay)

pub data Ended : Type 0 where
  clean failed panicked : Ended

-- One round of the loop: what the shutdown watch reads before and after the run, how the run ended,
-- how long it was up and when its restart is recorded.
pub record Run : Type 0 where
  pub shutdown_before : Bool
  pub ended : Ended
  pub shutdown_after : Bool
  pub uptime : ℕ
  pub recorded_at : ℕ

-- Whether the round leaves the loop.
abbrev pub leaves : Ended → Bool → Bool
leaves clean shutdown_after = true
leaves failed shutdown_after = shutdown_after
leaves panicked shutdown_after = shutdown_after

abbrev pub after_run :
    Bool
    → ℕ
    → (ℕ → List ℕ × Option HealthRegistry)
    → Option HealthRegistry
    → ℕ × ℕ
    → List ℕ × Option HealthRegistry
after_run true backoff next registry delays = ([], registry)
after_run false backoff next registry (delay, later) =
    let (rest, registry') = next later in (delay ∷ rest, registry')

-- The delays that the supervisor sleeps, and the registry afterwards.
unfoldable pub run_supervised :
    String → List Run → ℕ → Option HealthRegistry → List ℕ × Option HealthRegistry
run_supervised name [] backoff registry = ([], registry)
run_supervised name (r ∷ rs) backoff registry =
    if r.shutdown_before
    then ([], registry)
    else after_run (leaves r.ended r.shutdown_after) backoff
        (λ later.
          run_supervised name rs later (poke (record_worker_restart r.recorded_at name) registry))
        registry (supervise_next_delay backoff r.uptime)
