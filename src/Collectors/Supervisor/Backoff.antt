-- ===== src/Collectors/Supervisor/Backoff.antt =====
-- The restart delays of the supervisor in collectors/mod.rs.
use crypto_collector.Prelude.{
  ℕ, zero, suc, ◌*◌, min, String, Option, List, [], ◌∷◌, ◌≡◌, refl, arith, leb, ◌||◌, if◌then◌else◌,
}
use crypto_collector.Alarm.Health.{HealthRegistry, record_worker_restart}
use crypto_collector.Providers.{poke}
use crypto_collector.Collectors.Supervisor.{
  Run, leaves, run_supervised, supervise_next_delay, next_backoff, supervise_initial_backoff,
  supervise_max_backoff, supervise_healthy_reset,
}

-- The initial delay, doubled `k` times.
abbrev pub doubled : ℕ → ℕ
doubled zero = supervise_initial_backoff
doubled (suc k) = doubled k * 2

abbrev pub capped : ℕ → ℕ
capped k = min (doubled k) supervise_max_backoff

-- The delays by the number of restarts since the last healthy run.
abbrev pub delays_after : ℕ → List Run → List ℕ
delays_after k [] = []
delays_after k (r ∷ rs) =
    if r.shutdown_before || leaves r.ended r.shutdown_after
    then []
    else (if leb supervise_healthy_reset r.uptime
        then supervise_initial_backoff ∷ delays_after 1 rs
        else capped k ∷ delays_after (suc k) rs)

supervised_lem :
    (name : String) (runs : List Run) (k backoff : ℕ) (registry : Option HealthRegistry)
    → backoff ≡ capped k
    → (run_supervised name runs backoff registry).0 ≡ delays_after k runs
unfolding run_supervised supervise_next_delay next_backoff
supervised_lem name [] k backoff registry h = refl
supervised_lem name (r ∷ rs) k backoff registry h =
    let reg = poke (record_worker_restart r.recorded_at name) registry in
    let healthy =
      supervised_lem name rs 1 (next_backoff supervise_initial_backoff) reg (omega arith) in
    let fast = supervised_lem name rs (suc k) (next_backoff backoff) reg (ground (arith, h)) in
    ground (arith, healthy, fast, h)

-- A task that fails again and again is restarted after delays that double from a second up to thirty
-- and stay there; a run of at least a minute starts them again at a second, and the first clean end
-- or shutdown is the last round.
pub run_supervised_lem :
    (name : String) (runs : List Run) (registry : Option HealthRegistry)
    → (run_supervised name runs supervise_initial_backoff registry).0 ≡ delays_after 0 runs
run_supervised_lem name runs registry =
    supervised_lem name runs 0 supervise_initial_backoff registry (omega arith)
