-- ===== src/Collectors/LeaseWorker/Trace.antt =====
-- What every trace of the loop of collectors/lease_worker.rs looks like.
use crypto_collector.Prelude.{
  Bool, true, false, List, [], ◌∷◌, ◌≡◌, refl, arith, Bool-cases, inl, inr,
}
use crypto_collector.Collectors.LeaseWorker.{
  LeaseCycleOutcome, continue, pause_before_next_claim, Claimed, item, nothing, error, Event,
  stopped, waits_idle, waits_error, claims, works, finalizes, pauses, Cycle, resume, after_finalize,
  cycle, after_claim, stop_in_wait, run_lease_worker,
}

-- Where a worker is between two events: between cycles, with an item to work on, with the result of
-- its work to finalise, owing a pause, or stopped.
pub data Phase (T R : Type 0) : Type 0 where
  ready : Phase T R
  working : T → Phase T R
  finalizing : T → R → Phase T R
  owing : Phase T R
  over : Phase T R

abbrev settled_phase : {T R : Type 0} → LeaseCycleOutcome → Phase T R
settled_phase continue = ready
settled_phase pause_before_next_claim = owing

module _ {S T R : Type 0} (claim : S → S × Claimed T) (work : S → T → S × R)
    (finalize : S → T → R → S × LeaseCycleOutcome) where
  -- A whole event sequence that keeps the protocol from a phase and a state on and leads to the other
  -- state: every event is the call of the closure on the state of its moment, with the answer of that
  -- call, and there is no other change of the state. The sequence ends between cycles or with the
  -- stop, never with an item in hand or a pause owed.
  abbrev pub Follows : Phase T R → S → List (Event T R) → S → Type 0
  Follows ready s [] s' = s ≡ s'
  Follows over s [] s' = s ≡ s'
  Follows ready s (stopped ∷ es) s' = Follows over s es s'
  Follows ready s (waits_idle ∷ es) s' = ((claim s).1 ≡ nothing) × Follows ready (claim s).0 es s'
  Follows ready s (waits_error ∷ es) s' = ((claim s).1 ≡ error) × Follows ready (claim s).0 es s'
  Follows ready s (claims t ∷ es) s' =
      ((claim s).1 ≡ item t) × Follows (working t) (claim s).0 es s'
  Follows (working t) s (works u r ∷ es) s' =
      (u ≡ t) × ((work s t).1 ≡ r) × Follows (finalizing t r) (work s t).0 es s'
  Follows (finalizing t r) s (finalizes u v o ∷ es) s' =
      (u ≡ t)
      × (v ≡ r)
      × ((finalize s t r).1 ≡ o)
      × Follows (settled_phase o) (finalize s t r).0 es s'
  Follows owing s (pauses ∷ es) s' = Follows ready s es s'
  Follows _ _ _ _ = ⊥

  -- The runs of what is left of the loop keep the protocol.
  abbrev IsFair : (S → S × List (Event T R)) → Type 0
  IsFair next = (s : S) → Follows ready s (next s).1 (next s).0

  resume-Follows :
      (stop : Bool) (s : S) (next : S → S × List (Event T R))
      → IsFair next
      → let run = resume claim work finalize stop s next in Follows ready s run.1 run.0
  resume-Follows true s next h = refl
  resume-Follows false s next h = h s

  after_finalize-Follows :
      (o : LeaseCycleOutcome) (stop : Bool) (s : S) (next : S → S × List (Event T R))
      → IsFair next
      → let run = after_finalize claim work finalize o stop s next in
        Follows (settled_phase o) s run.1 run.0
  after_finalize-Follows continue stop s next h = h s
  after_finalize-Follows pause_before_next_claim stop s next h = resume-Follows stop s next h

  after_claim-Follows :
      (stop : Bool) (s : S) (a : Claimed T) (next : S → S × List (Event T R))
      → IsFair next
      → (claim s).1 ≡ a
      → let run = after_claim claim work finalize stop ((claim s).0, a) next in
        Follows ready s run.1 run.0
  after_claim-Follows stop s nothing next h e = (e, resume-Follows stop (claim s).0 next h)
  after_claim-Follows stop s error next h e = (e, resume-Follows stop (claim s).0 next h)
  after_claim-Follows stop s (item t) next h e =
      let (s₁, r) = work (claim s).0 t in
      let (s₂, o) = finalize s₁ t r in
      (e, (refl, refl, (refl, refl, refl, after_finalize-Follows o stop s₂ next h)))

  cycle-Follows :
      (c : Cycle) (s : S) (next : S → S × List (Event T R))
      → IsFair next
      → let run = cycle claim work finalize c s next in Follows ready s run.1 run.0
  cycle-Follows c s next h = elim (Bool-cases c.stop_at_top) [
    | inl b ↦ rw b refl
    | inr b ↦ rw b (after_claim-Follows (stop_in_wait c) s (claim s).1 next h refl)
  ]

  -- In every run of a worker each item that `claim` hands out is worked on and then finalised with the
  -- result of that work, before anything else happens and before the run ends; it waits exactly where
  -- `claim` has no item or fails; a finalisation that asks for a pause is followed by one before the
  -- next claim or the end; nothing follows the stop; and the state changes by these calls alone.
  pub run_lease_worker-Follows :
      (cycles : List Cycle) (s : S)
      → let run = run_lease_worker claim work finalize cycles s in Follows ready s run.1 run.0
  unfolding run_lease_worker
  run_lease_worker-Follows [] s = refl
  run_lease_worker-Follows (c ∷ cs) s =
      cycle-Follows c s (run_lease_worker claim work finalize cs) (run_lease_worker-Follows cs)

  -- A worker whose shutdown flag is set at the top of a cycle stops there: it claims nothing, and
  -- the state stays.
  pub run_lease_worker-stop :
      (c : Cycle) (cycles : List Cycle) (s : S)
      → c.stop_at_top ≡ true
      → run_lease_worker claim work finalize (c ∷ cycles) s ≡ (s, stopped ∷ [])
  unfolding run_lease_worker
  run_lease_worker-stop c cycles s h = ground arith
