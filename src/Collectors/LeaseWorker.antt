-- ===== src/Collectors/LeaseWorker.antt =====
-- The claim, work and finalise loop of collectors/lease_worker.rs. The database and everything else
-- outside is a state that the closures pass on, and each cycle has an environment: what the
-- shutdown channel reads at its two points. The heartbeat task beside the work is not in the trace.
pub mod Trace
use crypto_collector.Prelude.{Bool, true, false, List, [], ◌∷◌, ◌||◌, ◌&&◌, if◌then◌else◌}

pub data HeartbeatStep : Type 0 where
  renewed fenced_out errored : HeartbeatStep

pub data LeaseCycleOutcome : Type 0 where
  continue pause_before_next_claim : LeaseCycleOutcome

-- The `match` of the heartbeat loop: whether the task goes on.
unfoldable pub beats_on : HeartbeatStep → Bool
beats_on renewed = true
beats_on errored = true
beats_on fenced_out = false

-- The beats that a task makes before the work is over.
unfoldable pub spawn_heartbeat : List HeartbeatStep → List HeartbeatStep
spawn_heartbeat [] = []
spawn_heartbeat (b ∷ bs) = let rest = spawn_heartbeat bs in if beats_on b then b ∷ rest else b ∷ []

-- shutdown.rs: whether a `select!` shutdown arm leaves its loop.
unfoldable pub shutdown_arm_should_break : Bool → Bool → Bool
shutdown_arm_should_break changed_err currently_shutting_down =
    changed_err || currently_shutting_down

pub data Claimed (T : Type 0) : Type 0 where
  item : T → Claimed T
  nothing : Claimed T
  error : Claimed T

-- What a worker does, in order: the calls of its closures with what they got and gave, its waits and
-- its end.
pub data Event (T R : Type 0) : Type 0 where
  stopped : Event T R
  waits_idle : Event T R
  waits_error : Event T R
  claims : T → Event T R
  works : T → R → Event T R
  finalizes : T → R → LeaseCycleOutcome → Event T R
  pauses : Event T R

-- `*shutdown.borrow()` at the top of the cycle; whether the channel changes before a wait is over,
-- and what it then reports.
pub record Cycle : Type 0 where
  pub stop_at_top : Bool
  pub changed_in_wait : Bool
  pub changed_err : Bool
  pub shutting_down : Bool

-- Whether a wait of the cycle ends the loop.
abbrev pub stop_in_wait : Cycle → Bool
stop_in_wait c = c.changed_in_wait && shutdown_arm_should_break c.changed_err c.shutting_down

module _ {S T R : Type 0} (claim : S → S × Claimed T) (work : S → T → S × R)
    (finalize : S → T → R → S × LeaseCycleOutcome) where
  abbrev pub log : Event T R → S × List (Event T R) → S × List (Event T R)
  log e run = (run.0, e ∷ run.1)

  -- After a wait: stop, or go on with the next cycle.
  abbrev pub resume : Bool → S → (S → S × List (Event T R)) → S × List (Event T R)
  resume true s next = (s, stopped ∷ [])
  resume false s next = next s

  abbrev pub after_finalize :
      LeaseCycleOutcome → Bool → S → (S → S × List (Event T R)) → S × List (Event T R)
  after_finalize continue stop s next = next s
  after_finalize pause_before_next_claim stop s next = log pauses (resume stop s next)

  abbrev pub after_work :
      T → R → Bool → S × LeaseCycleOutcome → (S → S × List (Event T R)) → S × List (Event T R)
  after_work t r stop (s, o) next = log (finalizes t r o) (after_finalize o stop s next)

  -- The `match` on the claim and what follows it.
  abbrev pub after_claim : Bool → S × Claimed T → (S → S × List (Event T R)) → S × List (Event T R)
  after_claim stop (s, nothing) next = log waits_idle (resume stop s next)
  after_claim stop (s, error) next = log waits_error (resume stop s next)
  after_claim stop (s, item t) next =
      let (s₁, r) = work s t in
      log (claims t) (log (works t r) (after_work t r stop (finalize s₁ t r) next))

  -- One round of the loop.
  abbrev pub cycle : Cycle → S → (S → S × List (Event T R)) → S × List (Event T R)
  cycle c s next =
      if c.stop_at_top then (s, stopped ∷ []) else after_claim (stop_in_wait c) (claim s) next

  -- The loop over the cycles that its environment lets it make.
  unfoldable pub run_lease_worker : List Cycle → S → S × List (Event T R)
  run_lease_worker [] s = (s, [])
  run_lease_worker (c ∷ cs) s = cycle c s (run_lease_worker cs)
