-- ===== src/Collectors/Lease.antt =====
-- The lease columns of collection_queue and backfill_chunks (models/queue.rs) and what the
-- statements of collectors/collection_queue.rs and collectors/backfill.rs write into them: both
-- tables have the same columns, and the statements set them alike, but for the completion. An
-- instant is a number of nanoseconds since the epoch and `now` is the clock of the statement. The
-- database keeps `attempts` in 32 bits; it stays far below that.
pub mod Steps
pub mod Fence
pub mod Retry
use crypto_collector.Prelude.{
  ℕ, ◌+◌, ◌*◌, ◌-◌, String, Bool, true, false, Option, some, none, ltb, leb, ◌&&◌, ◌||◌, str_eq,
  if◌then◌else◌,
}

pub data Status : Type 0 where
  pending claimed running done failed : Status

pub record Lease : Type 0 where
  pub status : Status
  pub claimed_by : Option String
  pub lease_expires_at : Option ℕ
  pub heartbeat_at : Option ℕ
  pub attempts : ℕ
  pub last_error : Option String
  pub updated_at : ℕ

abbrev pub second : ℕ
second = 1_000_000_000

-- A row as it is enqueued.
unfoldable pub fresh : ℕ → Lease
fresh now = record {
  status = Status.pending;
  claimed_by = none;
  lease_expires_at = none;
  heartbeat_at = none;
  attempts = 0;
  last_error = none;
  updated_at = now;
}

abbrev pub is_pending : Status → Bool
is_pending Status.pending = true
is_pending _ = false

-- status IN ('claimed', 'running')
abbrev pub is_held : Status → Bool
is_held Status.claimed = true
is_held Status.running = true
is_held _ = false

-- lease_expires_at < now(), which a NULL does not satisfy.
abbrev pub has_expired : ℕ → Option ℕ → Bool
has_expired now none = false
has_expired now (some at) = ltb at now

-- The predicate of the claim.
unfoldable pub claimable : ℕ → Lease → Bool
claimable now l = is_pending l.status || is_held l.status && has_expired now l.lease_expires_at

-- claimed_by = $2, which a NULL does not satisfy.
abbrev pub is_owner : String → Option String → Bool
is_owner who none = false
is_owner who (some holder) = str_eq holder who

unfoldable pub claim : ℕ → String → ℕ → Lease → Lease
claim now who lease_secs l = record l {
  status = Status.claimed;
  claimed_by = some who;
  lease_expires_at = some (now + lease_secs * second);
  heartbeat_at = some now;
  attempts = l.attempts + 1;
  updated_at = now;
}

-- An UPDATE under the fence `AND claimed_by = $2`.
abbrev pub fenced : String → (Lease → Lease) → Lease → Option Lease
fenced who f l = if is_owner who l.claimed_by then some (f l) else none

unfoldable pub heartbeat : ℕ → ℕ → Lease → Lease
heartbeat now lease_secs l = record l {
  lease_expires_at = some (now + lease_secs * second);
  heartbeat_at = some now;
  updated_at = now;
}

-- The SET list that every release of a lease shares.
abbrev pub unlocked : ℕ → Lease → Lease
unlocked now l = record l {
  lease_expires_at = none;
  claimed_by = none;
  heartbeat_at = none;
  updated_at = now;
}

unfoldable pub fail_or_retry : ℕ → ℕ → String → Lease → Lease
fail_or_retry now max_attempts message l = unlocked now (record l {
  status = if leb max_attempts l.attempts then Status.failed else Status.pending;
  last_error = some message;
})

-- GREATEST(attempts - 1, 0) is the truncated subtraction.
unfoldable pub release : ℕ → Lease → Lease
release now l =
    unlocked now
      (record l { status = Status.pending; last_error = none; attempts = l.attempts - 1 })

unfoldable pub fail_permanent : ℕ → String → Lease → Lease
fail_permanent now message l =
    unlocked now (record l { status = Status.failed; last_error = some message })

-- The completion of a queue item leaves the holder and the lease in the row.
unfoldable pub complete_item : ℕ → Lease → Lease
complete_item now l = record l { status = Status.done; updated_at = now }

-- The completion of a backfill chunk clears the holder and the lease.
unfoldable pub complete_chunk : ℕ → Lease → Lease
complete_chunk now l = record l {
  status = Status.done;
  claimed_by = none;
  lease_expires_at = none;
  updated_at = now;
}

-- collection_queue.rs: whether a failed attempt is retried.
unfoldable pub should_retry : ℕ → ℕ → Bool
should_retry attempts max_attempts = ltb attempts max_attempts
