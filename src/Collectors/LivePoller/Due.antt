-- ===== src/Collectors/LivePoller/Due.antt =====
-- When a coin of collectors/live_poller.rs is due: the claim's predicate, the pure function, and the
-- row of a coin behind its poll.
use crypto_collector.Prelude.{
  ℕ, ◌+◌, ◌*◌, ◌≤◌, ◌≡◌, refl, String, Bool, true, false, not, ◌&&◌, ◌||◌, Option, some, none, List,
  [], ◌∷◌, leb, ltb, ◌==◌, str_eq, if◌then◌else◌, find_by, arith, inl, inr, Bool-cases,
}
use crypto_collector.Candles.{second}
use crypto_collector.Attempts.{Capability}
use crypto_collector.Providers.{
  ProviderError, not_supported, no_capable_provider, rate_limited, http, credit_exhausted, parse,
  network, pacer, other, is_transient, Result, chain_try,
}
use crypto_collector.Collectors.LivePoller.{
  PolledCoin, interval_of, in_flight, is_overdue, is_market_due, polled_out, unclaimed,
  is_claimable, with_marker, update_coin, polled_at, cleared, deferred, Settlement, success, clear,
  defer, settlement, settled, settle, Polling, Polled, poll_coin, mark_coin_poll_success,
  clear_coin_poll_marker, defer_coin_poll,
}

unclaimed-in_flight :
    (now : ℕ) (r : PolledCoin) → unclaimed now r ≡ not (in_flight now r.live_poll_claimed_until)
unclaimed-in_flight now r = marker r.live_poll_claimed_until
  where
    marker :
        (o : Option ℕ)
        → (elim o [ none ↦ true | some until ↦ leb until now ]) ≡ not (in_flight now o)
    marker none = refl
    marker (some until) = ground arith

polled_out-is_overdue :
    (now global_interval_secs : ℕ) (r : PolledCoin)
    → polled_out now global_interval_secs r
      ≡ is_overdue now (interval_of global_interval_secs r.live_poll_interval) r.last_polled_at
polled_out-is_overdue now global_interval_secs r = by_polled r.last_polled_at
  where
    by_polled :
        (o : Option ℕ)
        → (elim o [
          | none ↦ true
          | some t ↦ leb (t + interval_of global_interval_secs r.live_poll_interval * second) now
        ])
          ≡ is_overdue now (interval_of global_interval_secs r.live_poll_interval) o
    by_polled none = refl
    by_polled (some t) = refl

-- The WHERE clause of the claim and the pure function agree: a coin can be claimed exactly if it is
-- active and due.
pub is_claimable-is_market_due :
    (now global_interval_secs : ℕ) (r : PolledCoin)
    → is_claimable now global_interval_secs r
      ≡ str_eq r.status "active"
        && is_market_due r.last_polled_at r.live_poll_claimed_until global_interval_secs
            r.live_poll_interval now
unfolding is_claimable is_market_due
is_claimable-is_market_due now global_interval_secs r =
    ground (arith, unclaimed-in_flight now r, polled_out-is_overdue now global_interval_secs r)

abbrev pub has_coin : String → PolledCoin → Bool
has_coin coin_id r = str_eq r.coin_id coin_id

-- The instant from which a settled coin is due again.
abbrev pub due_again : ℕ → ℕ → ℕ → Settlement → PolledCoin → ℕ
due_again settled_at global_interval_secs max_interval_secs success r =
    settled_at + interval_of global_interval_secs r.live_poll_interval * second
due_again settled_at global_interval_secs max_interval_secs clear r = settled_at
due_again settled_at global_interval_secs max_interval_secs defer r =
    settled_at + max_interval_secs * second

polled_out-later :
    (now later global_interval_secs : ℕ) (r : PolledCoin)
    → now ≤ later
    → polled_out now global_interval_secs r ≡ true
    → polled_out later global_interval_secs r ≡ true
polled_out-later now later global_interval_secs r h = by_polled r.last_polled_at
  where
    due_at : ℕ → Option ℕ → Bool
    due_at at o = elim o [
      | none ↦ true
      | some t ↦ leb (t + interval_of global_interval_secs r.live_poll_interval * second) at
    ]

    by_polled : (o : Option ℕ) → due_at now o ≡ true → due_at later o ≡ true
    by_polled none e = refl
    by_polled (some t) e = ground arith

-- A claimable row with a marker is claimable again when the marker ends.
with_marker-is_claimable :
    (now later until global_interval_secs : ℕ) (r : PolledCoin)
    → is_claimable now global_interval_secs r ≡ true
    → now ≤ later
    → is_claimable later global_interval_secs (with_marker until r) ≡ leb until later
unfolding is_claimable
with_marker-is_claimable now later until global_interval_secs r due h =
    ground (arith, polled_out-later now later global_interval_secs r h)

settled-is_claimable :
    (claimed_at settled_at later until global_interval_secs max_interval_secs : ℕ)
    (how : Settlement) (r : PolledCoin)
    → is_claimable claimed_at global_interval_secs r ≡ true
    → claimed_at ≤ settled_at
    → settled_at ≤ later
    → is_claimable later global_interval_secs
        (settled settled_at max_interval_secs how (with_marker until r))
      ≡ leb (due_again settled_at global_interval_secs max_interval_secs how r) later
unfolding settled polled_at cleared deferred is_claimable
settled-is_claimable claimed_at settled_at later until g m success r due h k = ground arith
settled-is_claimable claimed_at settled_at later until g m clear r due h k =
    ground (arith, polled_out-later claimed_at later g r (omega arith))
settled-is_claimable claimed_at settled_at later until g m defer r due h k =
    ground (arith, polled_out-later claimed_at later g r (omega arith))

find_by-update_coin :
    (f : PolledCoin → PolledCoin) (coin_id : String)
    → ((r : PolledCoin) → (f r).coin_id ≡ r.coin_id)
    → (rows : List PolledCoin) {r : PolledCoin} → find_by (has_coin coin_id) rows ≡ some r
    → find_by (has_coin coin_id) (update_coin f coin_id rows) ≡ some (f r)
find_by-update_coin f coin_id same [] h = absurd (cc)
find_by-update_coin f coin_id same (x ∷ rows) {r = r} h =
    elim (Bool-cases (str_eq x.coin_id coin_id)) [
      | inl here ↦ ground (arith, here, same x)
      | inr there ↦
          let behind : find_by (has_coin coin_id) rows ≡ some r = ground (arith, there) in
          ground (arith, there, find_by-update_coin f coin_id same rows behind)
    ]

find_by-settle :
    (settled_at max_interval_secs : ℕ) (how : Settlement) (coin_id : String)
    (rows : List PolledCoin) {r : PolledCoin}
    → find_by (has_coin coin_id) rows ≡ some r
    → find_by (has_coin coin_id) (settle settled_at max_interval_secs how coin_id rows)
      ≡ some (settled settled_at max_interval_secs how r)
unfolding settle settled mark_coin_poll_success clear_coin_poll_marker defer_coin_poll polled_at
    cleared deferred
find_by-settle t m success coin_id rows h =
    find_by-update_coin (polled_at t) coin_id (λ r. refl) rows h
find_by-settle t m clear coin_id rows h = find_by-update_coin cleared coin_id (λ r. refl) rows h
find_by-settle t m defer coin_id rows h =
    find_by-update_coin (deferred t m) coin_id (λ r. refl) rows h

-- The errors that another try at once does not mend: everything but a rate limit, a network error, a
-- refusal of the pacer and a status 408, 425, 429 or 5xx.
abbrev pub is_lasting : ProviderError → Bool
is_lasting rate_limited = false
is_lasting (network message) = false
is_lasting (pacer e) = false
is_lasting (http status body) =
    not (status == 408)
    && not (status == 425)
    && not (status == 429)
    && (ltb status 500 || ltb 599 status)
is_lasting e = true

-- The instant from which a coin is due again, by what its poll came to.
abbrev pub due_after : {Q : Type 0} → ℕ → ℕ → ℕ → Result Q → (stored : Bool) → PolledCoin → ℕ
due_after settled_at global_interval_secs max_interval_secs (Result.ok quote) stored r =
    if stored
    then settled_at + interval_of global_interval_secs r.live_poll_interval * second
    else settled_at
due_after settled_at global_interval_secs max_interval_secs (Result.err e) stored r =
    if is_lasting e then settled_at + max_interval_secs * second else settled_at

due_again-settlement :
    {Q : Type 0} (settled_at g m : ℕ) (answer : Result Q) (stored : Bool) (r : PolledCoin)
    → due_again settled_at g m (settlement answer stored) r
      ≡ due_after settled_at g m answer stored r
unfolding settlement is_transient
due_again-settlement t g m (Result.ok quote) true r = refl
due_again-settlement t g m (Result.ok quote) false r = refl
due_again-settlement t g m (Result.err (not_supported c)) stored r = refl
due_again-settlement t g m (Result.err (no_capable_provider c)) stored r = refl
due_again-settlement t g m (Result.err rate_limited) stored r = refl
due_again-settlement t g m (Result.err (http status body)) stored r = ground arith
due_again-settlement t g m (Result.err credit_exhausted) stored r = refl
due_again-settlement t g m (Result.err (parse message)) stored r = refl
due_again-settlement t g m (Result.err (network message)) stored r = refl
due_again-settlement t g m (Result.err (pacer e)) stored r = ground arith
due_again-settlement t g m (Result.err (other message)) stored r = refl

-- A coin that was due when it was claimed is due again, from the end of its poll on: after its
-- interval if its quote is fetched and stored; at once after a transient error, a refusal of the
-- pacer or a failed store; after the longest interval after a permanent error; and when its claim
-- ends if the statement that settles it is not reached.
pub poll_coin-next_due :
    {Q : Type 0} (max_interval_secs global_interval_secs claimed_at until later : ℕ)
    (answers : String → Polling Q) (coin_id : String) (s : Polled Q) (r : PolledCoin)
    → is_claimable claimed_at global_interval_secs r ≡ true
    → find_by (has_coin coin_id) s.rows ≡ some (with_marker until r)
    → claimed_at ≤ (answers coin_id).settled_at
    → (answers coin_id).settled_at ≤ later
    → let p = answers coin_id in
      let answer = (chain_try Capability.spot p.at p.chain s.registry).0 in
      (row : PolledCoin) × (find_by
          (has_coin coin_id)
          (poll_coin max_interval_secs answers coin_id s).rows
        ≡ some row)
      × (is_claimable later global_interval_secs row
          ≡ leb
              (if p.reached
                then due_after p.settled_at global_interval_secs max_interval_secs answer p.stored r
                else until)
              later)
unfolding poll_coin
poll_coin-next_due m g claimed_at until later answers coin_id s r due found h k =
    let p = answers coin_id in
    let answer = (chain_try Capability.spot p.at p.chain s.registry).0 in
    let how = settlement answer p.stored in
    elim (Bool-cases p.reached) [
      | inl reached ↦ (
        settled p.settled_at m how (with_marker until r),
        rw reached (find_by-settle p.settled_at m how coin_id s.rows found),
        rw (reached, ← due_again-settlement p.settled_at g m answer p.stored r)
            (settled-is_claimable claimed_at p.settled_at later until g m how r due h k),
      )
      | inr lost ↦ (
        with_marker until r,
        rw lost found,
        rw lost (with_marker-is_claimable claimed_at later until g r due (omega arith)),
      )
    ]
