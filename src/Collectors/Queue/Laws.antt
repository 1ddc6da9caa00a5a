-- ===== src/Collectors/Queue/Laws.antt =====
-- The collection queue of collectors/collection_queue.rs: no target is queued twice, and what a
-- finalisation leaves in the row.
use crypto_collector.Prelude.{
  any-append, ℕ, ◌-◌, String, true, false, some, [], ◌∷◌, ◌++◌, ◌≡◌, refl, arith, any, ◌&&◌,
  if◌then◌else◌, leb, str_eq_iff, inl, inr, Bool-cases,
}
use crypto_collector.Table.{find, update_taken, nat_key}
use crypto_collector.Collectors.Lease.{
  Status, is_owner, fenced, complete_item, fail_or_retry, release, fail_permanent, fresh,
}
use crypto_collector.Collectors.Work.{set_lease, fail_or_retry_row, release_row, fail_permanent_row}
use crypto_collector.Collectors.Retry.{transient, permanent}
use crypto_collector.Collectors.LeaseWorker.{LeaseCycleOutcome, continue, pause_before_next_claim}
use crypto_collector.Collectors.Queue.{
  Queue, QueueItem, is_live, new_item, queue_row, conflicts, enqueue_queue_item,
  complete_queue_item, DispatchOutcome, done, soft_skip, Dispatched, ok, err, finalize_item,
}

-- No live row has the target and kind of a live row behind it.
abbrev pub IsDistinct : Queue → Type 0
IsDistinct [] = Unit {0}
IsDistinct (e ∷ t) =
    ((is_live e.1 && any (conflicts e.1.target_kind e.1.target_id e.1.kind) t) ≡ false)
    × IsDistinct t

conflicts-new_item :
    (now id : ℕ) (target_kind target_id kind : String)
    → conflicts target_kind target_id kind (id, new_item now target_kind target_id kind) ≡ true
unfolding fresh
conflicts-new_item now id target_kind target_id kind = ground (
  arith,
  (str_eq_iff target_kind target_kind).1 refl,
  (str_eq_iff target_id target_id).1 refl,
  (str_eq_iff kind kind).1 refl,
)

-- Enqueueing is idempotent: after an enqueue the same enqueue, whenever it comes next, inserts
-- nothing, changes nothing and says so.
pub enqueue-enqueue :
    (now later id next : ℕ) (target_kind target_id kind : String) (t : Queue)
    → let t' = (enqueue_queue_item now id target_kind target_id kind t).0 in
      enqueue_queue_item later next target_kind target_id kind t' ≡ (t', false)
unfolding enqueue_queue_item
enqueue-enqueue now later id next target_kind target_id kind t =
    elim (Bool-cases (any (conflicts target_kind target_id kind) t)) [
      | inl there ↦ rw (there, there)
      | inr absent ↦ rw (
        absent,
        any-append (conflicts target_kind target_id kind) t
            ((id, new_item now target_kind target_id kind) ∷ []),
        absent,
        conflicts-new_item now id target_kind target_id kind,
      )
    ]

distinct_behind :
    (now id : ℕ) (target_kind target_id kind : String) (e : ℕ × QueueItem)
    → conflicts target_kind target_id kind e ≡ false
    → (is_live e.1
        && conflicts e.1.target_kind e.1.target_id e.1.kind
            (id, new_item now target_kind target_id kind))
      ≡ false
unfolding fresh
distinct_behind now id target_kind target_id kind e h = ground (
  arith,
  str_eq_iff e.1.target_kind target_kind,
  str_eq_iff e.1.target_id target_id,
  str_eq_iff e.1.kind kind,
  str_eq_iff target_kind e.1.target_kind,
  str_eq_iff target_id e.1.target_id,
  str_eq_iff kind e.1.kind,
)

IsDistinct-append :
    (now id : ℕ) (target_kind target_id kind : String) (t : Queue)
    → any (conflicts target_kind target_id kind) t ≡ false
    → IsDistinct t
    → IsDistinct (t ++ (id, new_item now target_kind target_id kind) ∷ [])
IsDistinct-append now id target_kind target_id kind [] h d = (ground arith, tt)
IsDistinct-append now id target_kind target_id kind (e ∷ t) h d = (
  ground (
    arith,
    d.0,
    any-append (conflicts e.1.target_kind e.1.target_id e.1.kind) t
        ((id, new_item now target_kind target_id kind) ∷ []),
    distinct_behind now id target_kind target_id kind e (ground arith),
  ),
  IsDistinct-append now id target_kind target_id kind t (ground arith) d.1,
)

-- Enqueueing keeps the queue free of duplicates: no two live rows get one target and kind.
pub enqueue-IsDistinct :
    (now id : ℕ) (target_kind target_id kind : String) (t : Queue)
    → IsDistinct t
    → IsDistinct (enqueue_queue_item now id target_kind target_id kind t).0
unfolding enqueue_queue_item
enqueue-IsDistinct now id target_kind target_id kind t d =
    elim (Bool-cases (any (conflicts target_kind target_id kind) t)) [
      | inl there ↦ rw there d
      | inr absent ↦ rw absent (IsDistinct-append now id target_kind target_id kind t absent d)
    ]

-- The status that a result asks for, at the attempts of the claim.
abbrev pub settled : ℕ → ℕ → Dispatched DispatchOutcome → Status
settled max_attempts attempts (ok done) = Status.done
settled max_attempts attempts (ok soft_skip) = Status.pending
settled max_attempts attempts (err (permanent msg)) = Status.failed
settled max_attempts attempts (err (transient msg)) =
    if leb max_attempts attempts then Status.failed else Status.pending

-- Only a skip gives the attempt back.
abbrev pub charged : ℕ → Dispatched DispatchOutcome → ℕ
charged attempts (ok soft_skip) = attempts - 1
charged attempts _ = attempts

-- Backpressure and transient failures ask for a pause.
abbrev pub needs_pause : Dispatched DispatchOutcome → LeaseCycleOutcome
needs_pause (ok soft_skip) = pause_before_next_claim
needs_pause (err (transient msg)) = pause_before_next_claim
needs_pause _ = continue

-- The finalisation of an item by its holder, with the database reached: the row is done, failed or
-- pending again as the result asks for, only a skip gives the attempt back, and the loop pauses
-- exactly after a skip or a transient failure.
pub finalize_item_lem :
    (now id max_attempts : ℕ) (who : String) (result : Dispatched DispatchOutcome) (t : Queue)
    (a : QueueItem)
    → find id t ≡ some a
    → is_owner who a.lease.claimed_by ≡ true
    → (b : QueueItem) × (find id (finalize_item true now who max_attempts id result t).0 ≡ some b)
      × (b.lease.status ≡ settled max_attempts a.lease.attempts result)
      × (b.lease.attempts ≡ charged a.lease.attempts result)
      × ((finalize_item true now who max_attempts id result t).1 ≡ needs_pause result)
unfolding finalize_item complete_queue_item release_row fail_permanent_row fail_or_retry_row
    complete_item release fail_permanent fail_or_retry
finalize_item_lem now id max_attempts who (ok done) t a found own = (
  record a { lease = complete_item now a.lease },
  (update_taken id (set_lease (fenced who (complete_item now))) t found (ground arith)).1,
  refl,
  refl,
  refl,
)
finalize_item_lem now id max_attempts who (ok soft_skip) t a found own = (
  record a { lease = release now a.lease },
  (update_taken id (set_lease (fenced who (release now))) t found (ground arith)).1,
  refl,
  refl,
  refl,
)
finalize_item_lem now id max_attempts who (err (permanent msg)) t a found own = (
  record a { lease = fail_permanent now msg a.lease },
  (update_taken id (set_lease (fenced who (fail_permanent now msg))) t found (ground arith)).1,
  refl,
  refl,
  refl,
)
finalize_item_lem now id max_attempts who (err (transient msg)) t a found own = (
  record a { lease = fail_or_retry now max_attempts msg a.lease },
  (update_taken id (set_lease (fenced who (fail_or_retry now max_attempts msg))) t found
      (ground arith)).1,
  refl,
  refl,
  refl,
)
