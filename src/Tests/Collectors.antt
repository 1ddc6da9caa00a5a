-- ===== src/Tests/Collectors.antt =====
-- Witnesses for the properties of the workers, at small concrete rows and tables.
use crypto_collector.Prelude.{
  ℕ, zero, suc, ◌+◌, ◌*◌, ◌≤◌, ◌<◌, ◌↔◌, ◌⊎◌, min, true, false, some, none, List, [], ◌∷◌, ◌≡◌,
  refl, arith, All, length,
}
use crypto_collector.Prelude.Int.{pos}
use crypto_collector.Table.{find, nat_key}
use crypto_collector.Collectors.Lease.{
  Status, Lease, fresh, claim, claimable, second, is_owner, fail_or_retry,
}
use crypto_collector.Collectors.Lease.Steps.{
  Reach, here, next, claims, fails, IsWellFormed, enqueued-IsWellFormed,
}
use crypto_collector.Collectors.Lease.Fence.{none_yet, HeldUntil, lease_exclusive}
use crypto_collector.Collectors.Lease.Retry.{
  Round, fail_rounds, fail_rounds_lem, Takeover, take_overs, lost_leases_unbounded,
}
use crypto_collector.Collectors.Retry.{max_claims_in_window, claims-le-max, transient}
use crypto_collector.Collectors.Work.{
  claim_row, heartbeat_row, fail_or_retry_row, release_row, fail_permanent_row,
}
use crypto_collector.Collectors.Work.Laws.{IsBest, claim_row-IsBest, not_owner-unchanged}
use crypto_collector.Collectors.LeaseWorker.{
  Claimed, item, nothing, pause_before_next_claim, Cycle, run_lease_worker,
}
use crypto_collector.Collectors.LeaseWorker.Trace.{ready, Follows, run_lease_worker-Follows}
use crypto_collector.Collectors.Queue.{
  Queue, QueueItem, queue_row, new_item, enqueue_queue_item, err, finalize_item,
}
use crypto_collector.Collectors.Queue.Laws.{
  IsDistinct, enqueue-IsDistinct, settled, charged, needs_pause, finalize_item_lem,
}

abbrev held : Lease
held = claim 10 "a" 1 (fresh 0)

held-HeldUntil : HeldUntil "a" (10 + 1 * second) held
unfolding claim fresh
held-HeldUntil = record { status = refl; holder = refl; lease = refl }

lease_exclusive_example : held ≡ held
lease_exclusive_example = lease_exclusive held-HeldUntil none_yet

fresh-claimable : claimable 10 (fresh 0) ≡ true
unfolding claimable fresh
fresh-claimable = refl

held_owned : is_owner "a" held.claimed_by ≡ true
unfolding claim fresh
held_owned = refl

held_reached : Reach (fresh 0) held
held_reached = next here (claims 1 fresh-claimable)

failed_reached : Reach (fresh 0) (fail_or_retry 20 1 "lost" held)
failed_reached = next held_reached (fails 1 "lost" held_owned)

enqueued-IsWellFormed_example : IsWellFormed (fail_or_retry 20 1 "lost" held)
enqueued-IsWellFormed_example = enqueued-IsWellFormed 0 failed_reached

abbrev rounds : List Round
rounds =
    record { now = 1; later = 2; lease_secs = 1; who = "a"; message = "x" }
    ∷ record { now = 3; later = 4; lease_secs = 1; who = "b"; message = "y" }
    ∷ []

fresh_pending : (fresh 0).status ≡ Status.pending
unfolding fresh
fresh_pending = refl

fresh_below : (fresh 0).attempts < 2
unfolding fresh
fresh_below = omega arith

fail_rounds_lem_example :
    ((fail_rounds 2 rounds (fresh 0)).attempts ≡ min ((fresh 0).attempts + length rounds) 2)
    × (((fail_rounds 2 rounds (fresh 0)).status ≡ Status.failed)
        ↔ (2 ≤ (fresh 0).attempts + length rounds))
fail_rounds_lem_example = fail_rounds_lem 2 rounds (fresh 0) fresh_pending fresh_below

abbrev crashing : Takeover
crashing = record { who = "a"; lease_secs = 1; idle = 0 }

abbrev crashing_too : Takeover
crashing_too = record { who = "b"; lease_secs = 2; idle = 7 }

lost_leases_unbounded_example :
    ((take_overs 5 crashing (crashing_too ∷ crashing ∷ []) (fresh 0)).attempts ≡ suc 2)
    × ((take_overs 5 crashing (crashing_too ∷ crashing ∷ []) (fresh 0)).status ≡ Status.claimed)
lost_leases_unbounded_example = lost_leases_unbounded 0 5 crashing (crashing_too ∷ crashing ∷ [])

claims-le-max_example : length {A = ℕ} (0 ∷ 5 ∷ 9 ∷ []) ≤ max_claims_in_window (pos 10) (pos 4)
claims-le-max_example =
    claims-le-max 10 4 (0 ∷ 5 ∷ 9 ∷ []) (omega arith)
      (omega arith, (omega arith, (omega arith, tt)))
      (omega arith, (omega arith, (omega arith, tt)))

abbrev queued : Queue
queued = (3, new_item 0 "coin" "btc" "price") ∷ []

queued_keyed : All (λ e. find e.0 queued ≡ some e.1) queued
unfolding find
queued_keyed = (refl, tt)

claim_row-IsBest_example :
    ((claim_row (λ i. false) 10 "a" 1 queued ≡ (queued, none)) × IsBest (λ i. false) 10 none queued)
    ⊎ ((id : ℕ) × (a b : QueueItem) × IsBest (λ i. false) 10 (some (id, a)) queued
        × (find id queued ≡ some a)
        × (b.lease ≡ claim 10 "a" 1 a.lease)
        × ((claim_row (λ i. false) 10 "a" 1 queued).1 ≡ some (id, b))
        × (find id (claim_row (λ i. false) 10 "a" 1 queued).0 ≡ some b))
claim_row-IsBest_example = claim_row-IsBest (λ i. false) 10 1 "a" queued queued_keyed

abbrev taken_item : QueueItem
taken_item = record (new_item 0 "coin" "btc" "price") { lease = held }

abbrev taken : Queue
taken = (3, taken_item) ∷ []

taken_found : find 3 taken ≡ some taken_item
unfolding find
taken_found = refl

taken_lost : is_owner "b" taken_item.lease.claimed_by ≡ false
unfolding claim fresh
taken_lost = refl

not_owner-unchanged_example :
    (heartbeat_row 10 3 "b" 1 taken ≡ (taken, false))
    × (fail_or_retry_row 10 3 "b" 5 "lost" taken ≡ taken)
    × (release_row 10 3 "b" taken ≡ taken)
    × (fail_permanent_row 10 3 "b" "lost" taken ≡ taken)
not_owner-unchanged_example =
    not_owner-unchanged 10 3 1 5 "b" "lost" taken taken_item taken_found taken_lost

abbrev rounds_of_worker : List Cycle
rounds_of_worker =
    record {
      stop_at_top = false;
      changed_in_wait = false;
      changed_err = false;
      shutting_down = false;
    }
    ∷ record {
      stop_at_top = true;
      changed_in_wait = false;
      changed_err = false;
      shutting_down = true;
    }
    ∷ []

abbrev take_one : ℕ → ℕ × Claimed ℕ
take_one zero = (0, nothing)
take_one (suc n) = (n, item n)

run_lease_worker-Follows_example :
    let run =
      run_lease_worker take_one
        (λ s t. (s, t))
        (λ s t r. (s, pause_before_next_claim))
        rounds_of_worker
        5 in
    Follows take_one (λ s t. (s, t)) (λ s t r. (s, pause_before_next_claim)) ready 5 run.1 run.0
run_lease_worker-Follows_example =
    run_lease_worker-Follows take_one (λ s t. (s, t)) (λ s t r. (s, pause_before_next_claim))
      rounds_of_worker 5

queued-IsDistinct : IsDistinct queued
unfolding fresh
queued-IsDistinct = (refl, tt)

enqueue-IsDistinct_example : IsDistinct (enqueue_queue_item 1 4 "coin" "btc" "price" queued).0
enqueue-IsDistinct_example = enqueue-IsDistinct 1 4 "coin" "btc" "price" queued queued-IsDistinct

finalize_item_lem_example :
    (b : QueueItem) × (find 3 (finalize_item true 20 "a" 5 3 (err (transient "x")) taken).0
      ≡ some b)
    × (b.lease.status ≡ settled 5 taken_item.lease.attempts (err (transient "x")))
    × (b.lease.attempts ≡ charged taken_item.lease.attempts (err (transient "x")))
    × ((finalize_item true 20 "a" 5 3 (err (transient "x")) taken).1
        ≡ needs_pause (err (transient "x")))
finalize_item_lem_example =
    finalize_item_lem 20 3 5 "a" (err (transient "x")) taken taken_item taken_found held_owned
