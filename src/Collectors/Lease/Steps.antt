-- ===== src/Collectors/Lease/Steps.antt =====
-- Every statement of a replica on the lease columns of a row of collection_queue or backfill_chunks,
-- as a step, and the shape that the columns keep.
use crypto_collector.Prelude.{ℕ, ◌≤◌, ◌≢◌, String, true, none, ◌≡◌, arith}
use crypto_collector.Collectors.Lease.{
  Status, Lease, fresh, claimable, claim, heartbeat, fail_or_retry, release, fail_permanent,
  complete_item, complete_chunk, is_owner,
}

-- A statement of the replica `who` at the instant `now`.
pub data Step (who : String) (now : ℕ) (l : Lease) : Lease → Type 0 where
  claims : (lease_secs : ℕ) → claimable now l ≡ true → Step who now l (claim now who lease_secs l)
  beats :
      (lease_secs : ℕ)
      → is_owner who l.claimed_by ≡ true
      → Step who now l (heartbeat now lease_secs l)
  fails :
      (max_attempts : ℕ) (message : String)
      → is_owner who l.claimed_by ≡ true
      → Step who now l (fail_or_retry now max_attempts message l)
  releases : is_owner who l.claimed_by ≡ true → Step who now l (release now l)
  gives_up :
      (message : String)
      → is_owner who l.claimed_by ≡ true
      → Step who now l (fail_permanent now message l)
  completes_item : is_owner who l.claimed_by ≡ true → Step who now l (complete_item now l)
  completes_chunk : is_owner who l.claimed_by ≡ true → Step who now l (complete_chunk now l)

pub data Reach (l : Lease) : Lease → Type 0 where
  here : Reach l l
  next : {m n : Lease} {who : String} {now : ℕ} → Reach l m → Step who now m n → Reach l n

-- The shape of the columns: a held row has a holder, a lease and a counted attempt; a pending or
-- failed row has neither holder nor lease; no statement writes `running`.
pub record IsWellFormed (l : Lease) : Type 0 where
  pub not_running : l.status ≢ Status.running
  pub held_owned : l.status ≡ Status.claimed → l.claimed_by ≢ none
  pub held_leased : l.status ≡ Status.claimed → l.lease_expires_at ≢ none
  pub held_counted : l.status ≡ Status.claimed → 1 ≤ l.attempts
  pub pending_free : l.status ≡ Status.pending → l.claimed_by ≡ none
  pub pending_unleased : l.status ≡ Status.pending → l.lease_expires_at ≡ none
  pub failed_free : l.status ≡ Status.failed → l.claimed_by ≡ none
  pub failed_counted : l.status ≡ Status.failed → l.last_error ≢ none

fresh-IsWellFormed : (now : ℕ) → IsWellFormed (fresh now)
unfolding fresh
fresh-IsWellFormed now = ground arith

Step-IsWellFormed :
    {who : String} {now : ℕ} {l m : Lease} → Step who now l m → IsWellFormed l → IsWellFormed m
unfolding claim heartbeat fail_or_retry release fail_permanent complete_item complete_chunk
Step-IsWellFormed (claims lease_secs h) w = ground arith
Step-IsWellFormed (beats lease_secs h) w = ground arith
Step-IsWellFormed (fails max_attempts message h) w = ground arith
Step-IsWellFormed (releases h) w = ground arith
Step-IsWellFormed (gives_up message h) w = ground arith
Step-IsWellFormed (completes_item h) w = ground arith
Step-IsWellFormed (completes_chunk h) w = ground arith

Reach-IsWellFormed : {l m : Lease} → Reach l m → IsWellFormed l → IsWellFormed m
Reach-IsWellFormed here w = w
Reach-IsWellFormed (next r s) w = Step-IsWellFormed s (Reach-IsWellFormed r w)

-- Whatever statements any replicas run on an enqueued row, at whatever instants, its columns keep
-- their shape.
pub enqueued-IsWellFormed : (now : ℕ) {l : Lease} → Reach (fresh now) l → IsWellFormed l
enqueued-IsWellFormed now r = Reach-IsWellFormed r (fresh-IsWellFormed now)

-- A failed row is final: no statement of any replica applies to it.
pub failed_final :
    {who : String} {now : ℕ} {l m : Lease}
    → IsWellFormed l
    → l.status ≡ Status.failed
    → ¬ Step who now l m
unfolding claimable
failed_final w f (claims lease_secs h) = ground arith
failed_final w f (beats lease_secs h) = ground arith
failed_final w f (fails max_attempts message h) = ground arith
failed_final w f (releases h) = ground arith
failed_final w f (gives_up message h) = ground arith
failed_final w f (completes_item h) = ground arith
failed_final w f (completes_chunk h) = ground arith
