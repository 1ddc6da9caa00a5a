-- ===== src/Collectors/Work.antt =====
-- The statements of collectors/collection_queue.rs on a whole work table, over any table whose rows
-- carry the lease columns; collectors/backfill.rs has the same statements on its chunks. The id of
-- a row is its key. `locked` tells the rows that a concurrent transaction holds (SKIP LOCKED).
pub mod Laws
use crypto_collector.Prelude.{
  ℕ, ◌+◌, String, Bool, true, false, Option, some, none, List, [], ◌∷◌, ◌≡◌, ◌&&◌, not, leb,
  if◌then◌else◌,
}
use crypto_collector.Table.{update, nat_key}
use crypto_collector.Collectors.Lease.{
  Lease, claimable, claim, fenced, heartbeat, fail_or_retry, release, fail_permanent,
}

-- What a row needs for the statements: its lease columns, and the instant that orders the claims.
pub record LeaseRow (A : Type 0) : Type 0 where
  pub lease : A → Lease
  pub with_lease : Lease → A → A
  pub queued_at : A → ℕ
  pub lease_with_lease : (l : Lease) (a : A) → lease (with_lease l a) ≡ l

module _ {A : Type 0} ⦃row : LeaseRow A⦄ where
  abbrev pub is_candidate : (ℕ → Bool) → ℕ → ℕ → A → Bool
  is_candidate locked now id a = claimable now (row.lease a) && not (locked id)

  -- The earlier of a row and the best one found behind it; ties go to the row.
  abbrev pub earlier : ℕ × A → Option (ℕ × A) → ℕ × A
  earlier e none = e
  earlier e (some f) = if leb (row.queued_at e.1) (row.queued_at f.1) then e else f

  -- SELECT … ORDER BY … LIMIT 1 FOR UPDATE SKIP LOCKED
  unfoldable pub oldest : (ℕ → Bool) → ℕ → List (ℕ × A) → Option (ℕ × A)
  oldest locked now [] = none
  oldest locked now ((id, a) ∷ t) =
      let rest = oldest locked now t in
      if is_candidate locked now id a then some (earlier (id, a) rest) else rest

  -- An UPDATE of the lease columns of one row.
  unfoldable pub set_lease : (Lease → Option Lease) → A → Option A
  set_lease f a = elim (f (row.lease a)) [ none ↦ none | some l ↦ some (row.with_lease l a) ]

  -- The claimed row with its id, if there was one.
  abbrev claimed_row : ℕ → List (ℕ × A) × Option A → List (ℕ × A) × Option (ℕ × A)
  claimed_row id (t, none) = (t, none)
  claimed_row id (t, some a) = (t, some (id, a))

  unfoldable pub claim_row :
      (ℕ → Bool) → ℕ → String → ℕ → List (ℕ × A) → List (ℕ × A) × Option (ℕ × A)
  unfolding oldest set_lease
  claim_row locked now who lease_secs t = elim (oldest locked now t) [
    | none ↦ (t, none)
    | some e ↦ claimed_row e.0 (update e.0 (set_lease (λ l. some (claim now who lease_secs l))) t)
  ]

  abbrev pub on_row : ℕ → String → (Lease → Lease) → List (ℕ × A) → List (ℕ × A) × Option A
  on_row id who f t = update id (set_lease (fenced who f)) t

  abbrev pub is_affected : Option A → Bool
  is_affected none = false
  is_affected (some _) = true

  -- `true` while the row is still held by `who`.
  unfoldable pub heartbeat_row : ℕ → ℕ → String → ℕ → List (ℕ × A) → List (ℕ × A) × Bool
  unfolding set_lease
  heartbeat_row now id who lease_secs t =
      let (t', a) = on_row id who (heartbeat now lease_secs) t in (t', is_affected a)

  unfoldable pub fail_or_retry_row : ℕ → ℕ → String → ℕ → String → List (ℕ × A) → List (ℕ × A)
  unfolding set_lease
  fail_or_retry_row now id who max_attempts message t =
      (on_row id who (fail_or_retry now max_attempts message) t).0

  unfoldable pub release_row : ℕ → ℕ → String → List (ℕ × A) → List (ℕ × A)
  unfolding set_lease
  release_row now id who t = (on_row id who (release now) t).0

  unfoldable pub fail_permanent_row : ℕ → ℕ → String → String → List (ℕ × A) → List (ℕ × A)
  unfolding set_lease
  fail_permanent_row now id who message t = (on_row id who (fail_permanent now message) t).0
