-- ===== src/Collectors/Lease/Retry.antt =====
-- How attempts are counted on the lease columns of collectors/: skips are free, transient failures
-- are bounded by the maximum, lost leases are not.
use crypto_collector.Prelude.{
  ℕ, suc, ◌+◌, ◌*◌, ◌≤◌, ◌<◌, ◌↔◌, min, String, true, none, List, [], ◌∷◌, ◌≡◌, refl, arith, length,
  if◌then◌else◌,
}
use native.Mathlib.Decide.{dec_lt}
use crypto_collector.Collectors.Lease.{
  Status, Lease, fresh, claimable, claim, release, fail_or_retry, second,
}

-- A claim that ends in a skip leaves the count of attempts as it was, and the row pending, free and
-- without an error.
pub release-claim :
    (now later lease_secs : ℕ) (who : String) (l : Lease)
    → let m = release later (claim now who lease_secs l) in
      (m.attempts ≡ l.attempts)
      × (m.status ≡ Status.pending)
      × (m.claimed_by ≡ none)
      × (m.last_error ≡ none)
unfolding release claim
release-claim now later lease_secs who l = ground arith

-- A claim at one instant that ends in a transient failure at another.
pub record Round : Type 0 where
  pub now : ℕ
  pub later : ℕ
  pub lease_secs : ℕ
  pub who : String
  pub message : String

unfoldable pub fail_round : ℕ → Round → Lease → Lease
fail_round max_attempts r l =
    if claimable r.now l
    then fail_or_retry r.later max_attempts r.message (claim r.now r.who r.lease_secs l)
    else l

unfoldable pub fail_rounds : ℕ → List Round → Lease → Lease
fail_rounds max_attempts [] l = l
fail_rounds max_attempts (r ∷ rs) l = fail_rounds max_attempts rs (fail_round max_attempts r l)

failed_stays :
    (max_attempts : ℕ) (rs : List Round) (l : Lease)
    → l.status ≡ Status.failed
    → fail_rounds max_attempts rs l ≡ l
unfolding fail_rounds fail_round claimable
failed_stays max_attempts [] l f = refl
failed_stays max_attempts (r ∷ rs) l f = ground (arith, failed_stays max_attempts rs l f)

fail_round_lem :
    (max_attempts : ℕ) (r : Round) (l : Lease)
    → l.status ≡ Status.pending
    → ((fail_round max_attempts r l).attempts ≡ l.attempts + 1)
      × (suc l.attempts < max_attempts → (fail_round max_attempts r l).status ≡ Status.pending)
      × (max_attempts ≤ suc l.attempts → (fail_round max_attempts r l).status ≡ Status.failed)
unfolding fail_round claimable claim fail_or_retry
fail_round_lem max_attempts r l p = ground arith

-- A pending row below the maximum fails exactly when its transient failures reach the maximum, its
-- attempts count them, and from then on they stay at the maximum.
pub fail_rounds_lem :
    (max_attempts : ℕ) (rs : List Round) (l : Lease)
    → l.status ≡ Status.pending
    → l.attempts < max_attempts
    → ((fail_rounds max_attempts rs l).attempts ≡ min (l.attempts + length rs) max_attempts)
      × (((fail_rounds max_attempts rs l).status ≡ Status.failed)
          ↔ (max_attempts ≤ l.attempts + length rs))
unfolding fail_rounds
fail_rounds_lem max_attempts [] l p b = ground arith
fail_rounds_lem max_attempts (r ∷ rs) l p b =
    let m = fail_round max_attempts r l in
    let (counted, retried, failed) = fail_round_lem max_attempts r l p in
    elim (dec_lt (suc l.attempts) max_attempts) [
      | yes below ↦
          ground (arith, fail_rounds_lem max_attempts rs m (retried below) (omega (arith, counted)))
      | no reached ↦ rw (failed_stays max_attempts rs m (failed (omega arith))) (ground arith)
    ]

-- A replica that claims a row some time after the lease of the claim before has run out.
pub record Takeover : Type 0 where
  pub who : String
  pub lease_secs : ℕ
  pub idle : ℕ

-- The row after claims at `now` and then by each replica in turn, one nanosecond and its idle time
-- behind the expiry of the lease before. A refused claim leaves the row as it is.
unfoldable pub take_over : ℕ → Takeover → Lease → Lease
take_over now r l = if claimable now l then claim now r.who r.lease_secs l else l

unfoldable pub take_overs : ℕ → Takeover → List Takeover → Lease → Lease
take_overs now r [] l = take_over now r l
take_overs now r (s ∷ rs) l =
    take_overs (now + r.lease_secs * second + 1 + s.idle) s rs (take_over now r l)

claim-claimable :
    (now idle lease_secs : ℕ) (who : String) (l : Lease)
    → claimable (now + lease_secs * second + 1 + idle) (claim now who lease_secs l) ≡ true
unfolding claim claimable
claim-claimable now idle lease_secs who l = ground arith

claim-counts :
    (now lease_secs : ℕ) (who : String) (l : Lease)
    → ((claim now who lease_secs l).attempts ≡ l.attempts + 1)
      × ((claim now who lease_secs l).status ≡ Status.claimed)
unfolding claim
claim-counts now lease_secs who l = (refl, refl)

take_overs_from :
    (now : ℕ) (r : Takeover) (rs : List Takeover) (l : Lease)
    → claimable now l ≡ true
    → ((take_overs now r rs l).attempts ≡ l.attempts + suc (length rs))
      × ((take_overs now r rs l).status ≡ Status.claimed)
unfolding take_overs take_over
take_overs_from now r [] l h =
    let (counted, held) = claim-counts now r.lease_secs r.who l in
    rw (h, take_overs, take_over) (omega (arith, counted), held)
take_overs_from now r (s ∷ rs) l h =
    let (counted, _) = claim-counts now r.lease_secs r.who l in
    let (all, held) =
      take_overs_from (now + r.lease_secs * second + 1 + s.idle) s rs
        (claim now r.who r.lease_secs l) (claim-claimable now s.idle r.lease_secs r.who l) in
    rw (h, take_overs, take_over) (omega (arith, all, counted), held)

-- Lost leases are not bounded by any maximum: in a run of claims of a fresh row, the first at any
-- instant and each of the others at any time behind the expiry of the one before, with no statement
-- in between, every claim takes the row and counts an attempt, however many claims there are.
pub lost_leases_unbounded :
    (start now : ℕ) (r : Takeover) (rs : List Takeover)
    → ((take_overs now r rs (fresh start)).attempts ≡ suc (length rs))
      × ((take_overs now r rs (fresh start)).status ≡ Status.claimed)
unfolding fresh claimable
lost_leases_unbounded start now r rs =
    let (counted, held) = take_overs_from now r rs (fresh start) refl in
    (omega (arith, counted), held)
