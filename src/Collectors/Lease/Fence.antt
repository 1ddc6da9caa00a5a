-- ===== src/Collectors/Lease/Fence.antt =====
-- One owner at a time for a row of collection_queue or backfill_chunks: the claim predicate and the
-- `claimed_by` fence of the statements in collectors/.
use crypto_collector.Prelude.{
  ℕ, ◌+◌, ◌*◌, ◌≤◌, ◌≢◌, String, some, ◌≡◌, refl, arith, str_eq_iff, ltb,
}
use crypto_collector.Collectors.Lease.{Status, Lease, claimable, claim, heartbeat, second}
use crypto_collector.Collectors.Lease.Steps.{
  Step, claims, beats, fails, releases, gives_up, completes_item, completes_chunk,
}

-- Statements of other replicas than `owner`, at instants up to `limit`.
pub data Others (owner : String) (limit : ℕ) (l : Lease) : Lease → Type 0 where
  none_yet : Others owner limit l l
  then :
      {m n : Lease} {who : String} {now : ℕ}
      → Others owner limit l m
      → owner ≢ who
      → now ≤ limit
      → Step who now m n
      → Others owner limit l n

pub record HeldUntil (owner : String) (expiry : ℕ) (l : Lease) : Type 0 where
  pub status : l.status ≡ Status.claimed
  pub holder : l.claimed_by ≡ some owner
  pub lease : l.lease_expires_at ≡ some expiry

no-Step :
    {owner who : String} {expiry now : ℕ} {l m : Lease}
    → HeldUntil owner expiry l
    → owner ≢ who
    → now ≤ expiry
    → Step who now l m
    → ⊥
unfolding claimable
no-Step {owner} {who} h other early (claims lease_secs c) = ground arith
no-Step {owner} {who} h other early (beats lease_secs c) = ground (arith, str_eq_iff owner who)
no-Step {owner} {who} h other early (fails a b c) = ground (arith, str_eq_iff owner who)
no-Step {owner} {who} h other early (releases c) = ground (arith, str_eq_iff owner who)
no-Step {owner} {who} h other early (gives_up a c) = ground (arith, str_eq_iff owner who)
no-Step {owner} {who} h other early (completes_item c) = ground (arith, str_eq_iff owner who)
no-Step {owner} {who} h other early (completes_chunk c) = ground (arith, str_eq_iff owner who)

-- While a lease runs, the row belongs to its holder: whatever the other replicas try up to the
-- expiry of the lease, the row stays exactly as it is.
pub lease_exclusive :
    {owner : String} {expiry : ℕ} {l m : Lease}
    → HeldUntil owner expiry l
    → Others owner expiry l m
    → m ≡ l
lease_exclusive h none_yet = refl
lease_exclusive {owner} {expiry} {l} h (then p other early s) =
    let same = lease_exclusive h p in absurd (no-Step (rw same h) other early s)

-- A claim holds the row for the whole lease from its instant, and the row can be claimed again
-- exactly after the lease has expired.
pub claim-HeldUntil :
    (now later lease_secs : ℕ) (who : String) (l : Lease)
    → HeldUntil who (now + lease_secs * second) (claim now who lease_secs l)
      × (claimable later (claim now who lease_secs l) ≡ ltb (now + lease_secs * second) later)
unfolding claim claimable
claim-HeldUntil now later lease_secs who l = ground arith

-- A heartbeat of the holder moves the expiry, and nothing else that the claim predicate reads.
pub heartbeat-HeldUntil :
    (now lease_secs expiry : ℕ) (who : String) (l : Lease)
    → HeldUntil who expiry l
    → HeldUntil who (now + lease_secs * second) (heartbeat now lease_secs l)
unfolding heartbeat
heartbeat-HeldUntil now lease_secs expiry who l h = ground arith
