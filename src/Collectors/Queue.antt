-- ===== src/Collectors/Queue.antt =====
-- The collection queue: the rows of collection_queue (models/queue.rs), the enqueue, the completion
-- and the finalisation of collectors/collection_queue.rs. A row that is enqueued is one that the
-- CHECK constraints of the table admit; its id is the next value of the table's sequence.
pub mod Laws
use crypto_collector.Prelude.{
  ℕ, String, Bool, true, false, Option, some, none, List, [], ◌∷◌, ◌++◌, ◌≡◌, refl, ◌&&◌, ◌||◌, any,
  str_eq, if◌then◌else◌,
}
use crypto_collector.Table.{nat_key}
use crypto_collector.Pacer.{AcquireSlotError}
use crypto_collector.Collectors.Lease.{Lease, fresh, is_pending, is_held, complete_item}
use crypto_collector.Collectors.Work.{
  LeaseRow, on_row, set_lease, fail_or_retry_row, release_row, fail_permanent_row,
}
use crypto_collector.Collectors.Retry.{DispatchError, transient, permanent}
use crypto_collector.Collectors.LeaseWorker.{LeaseCycleOutcome, continue, pause_before_next_claim}

pub record QueueItem : Type 0 where
  pub target_kind : String
  pub target_id : String
  pub kind : String
  pub lease : Lease
  pub enqueued_at : ℕ

instance abbrev pub queue_row : LeaseRow QueueItem
queue_row = record {
  lease = λ a. a.lease;
  with_lease = λ l a. record a { lease = l };
  queued_at = λ a. a.enqueued_at;
  lease_with_lease = λ l a. refl;
}

abbrev pub Queue : Type 0
Queue = List (ℕ × QueueItem)

-- The rows of the partial unique index collection_queue_dedup_idx.
abbrev pub is_live : QueueItem → Bool
is_live a = is_pending a.lease.status || is_held a.lease.status

abbrev pub same_target : String → String → String → QueueItem → Bool
same_target target_kind target_id kind a =
    str_eq a.target_kind target_kind && (str_eq a.target_id target_id && str_eq a.kind kind)

abbrev pub conflicts : String → String → String → ℕ × QueueItem → Bool
conflicts target_kind target_id kind e = is_live e.1 && same_target target_kind target_id kind e.1

abbrev pub new_item : ℕ → String → String → String → QueueItem
new_item now target_kind target_id kind = record {
  target_kind = target_kind;
  target_id = target_id;
  kind = kind;
  lease = fresh now;
  enqueued_at = now;
}

-- INSERT … ON CONFLICT DO NOTHING, and whether a row was inserted.
unfoldable pub enqueue_queue_item : ℕ → ℕ → String → String → String → Queue → Queue × Bool
enqueue_queue_item now id target_kind target_id kind t =
    if any (conflicts target_kind target_id kind) t
    then (t, false)
    else (t ++ (id, new_item now target_kind target_id kind) ∷ [], true)

unfoldable pub complete_queue_item : ℕ → ℕ → String → Queue → Queue
unfolding set_lease
complete_queue_item now id who t = (on_row id who (complete_item now) t).0

pub data DispatchOutcome : Type 0 where
  done soft_skip : DispatchOutcome

pub data Dispatched (A : Type 0) : Type 0 where
  ok : A → Dispatched A
  err : DispatchError → Dispatched A

unfoldable pub pacer_should_skip_queue : AcquireSlotError → Bool
pacer_should_skip_queue (AcquireSlotError.cooldown _ _) = true
pacer_should_skip_queue (AcquireSlotError.credit_exhausted _) = true
pacer_should_skip_queue (AcquireSlotError.not_found _) = false
pacer_should_skip_queue (AcquireSlotError.contended _) = false
pacer_should_skip_queue AcquireSlotError.db = false

-- A statement whose error is logged and dropped: `reached` tells whether it got to the database.
abbrev pub logged {ℓ} : {A : Type ℓ} → Bool → (A → A) → A → A
logged true f t = f t
logged false f t = t

-- The `finalize` closure of `run_collection_queue_worker`.
unfoldable pub finalize_item :
    Bool → ℕ → String → ℕ → ℕ → Dispatched DispatchOutcome → Queue → Queue × LeaseCycleOutcome
finalize_item reached now who max_attempts id (ok done) t =
    (logged reached (complete_queue_item now id who) t, continue)
finalize_item reached now who max_attempts id (ok soft_skip) t =
    (logged reached (release_row now id who) t, pause_before_next_claim)
finalize_item reached now who max_attempts id (err (permanent msg)) t =
    (logged reached (fail_permanent_row now id who msg) t, continue)
finalize_item reached now who max_attempts id (err (transient msg)) t =
    (logged reached (fail_or_retry_row now id who max_attempts msg) t, pause_before_next_claim)
