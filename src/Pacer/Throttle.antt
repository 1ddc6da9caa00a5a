-- ===== src/Pacer/Throttle.antt =====
-- `LocalThrottle` of pacer/mod.rs: one replica's gate before the shared pacer. The state is the
-- instant reserved last; a call returns the new state and how long it sleeps after the lock.
use crypto_collector.Prelude.{
  Spaced, ℕ, ◌+◌, ◌-◌, ◌≤◌, ◌<◌, ◌≢◌, ltb, max, Option, some, none, List, [], ◌∷◌, ◌≡◌, arith, ◌==◌,
  if◌then◌else◌,
}

pub record LocalThrottle : Type 0 where
  pub last_request : Option ℕ
  pub min_gap : ℕ

unfoldable pub new : ℕ → LocalThrottle
new min_gap = record { last_request = none; min_gap = min_gap }

-- `min_gap.saturating_sub(now.duration_since(prev))`, and `duration_since` saturates too.
abbrev pub sleep_for : ℕ → ℕ → Option ℕ → ℕ
sleep_for min_gap now none = 0
sleep_for min_gap now (some prev) = min_gap - (now - prev)

unfoldable pub acquire : ℕ → LocalThrottle → LocalThrottle × ℕ
acquire now s =
    if s.min_gap == 0
    then (s, 0)
    else (let sleep = sleep_for s.min_gap now s.last_request in
        (record s { last_request = some (now + sleep) }, sleep))

-- The instants at which the callers go ahead, for calls at the given instants.
unfoldable pub starts : List ℕ → LocalThrottle → List ℕ
starts [] s = []
starts (now ∷ rest) s = let (s', sleep) = acquire now s in (now + sleep) ∷ starts rest s'

-- Every call is made when the start before it, the first of the list, has passed.
abbrev pub OneByOne : ℕ → List ℕ → List ℕ → Type 0
OneByOne from [] _ = Unit {0}
OneByOne from (now ∷ rest) [] = Unit {0}
OneByOne from (now ∷ rest) (start ∷ later) = (from ≤ now) × OneByOne start rest later

-- Where a caller goes ahead: a gap after the last reserved start if that has passed, and a gap after
-- its own arrival if that start still lies ahead.
pub acquire-start :
    (now prev : ℕ) (s : LocalThrottle)
    → s.last_request ≡ some prev
    → now + (acquire now s).1
      ≡ (if ltb now prev then now + s.min_gap else max now (prev + s.min_gap))
unfolding acquire
acquire-start now prev s h = ground arith

acquire-reserves :
    (now : ℕ) (s : LocalThrottle)
    → s.min_gap ≢ 0
    → ((acquire now s).0.last_request ≡ some (now + (acquire now s).1))
      × ((acquire now s).0.min_gap ≡ s.min_gap)
unfolding acquire
acquire-reserves now s g = ground arith

Spaced-from :
    (calls : List ℕ) (s : LocalThrottle) (prev : ℕ)
    → s.min_gap ≢ 0
    → s.last_request ≡ some prev
    → OneByOne prev calls (starts calls s)
    → Spaced s.min_gap (prev + s.min_gap) (starts calls s)
unfolding starts
Spaced-from [] s prev g h o = tt
Spaced-from (now ∷ rest) s prev g h o =
    let (reserved, kept) = acquire-reserves now s g in
    let later =
      Spaced-from rest (acquire now s).0 (now + (acquire now s).1) (rw kept g) reserved o.1 in
    (ground (arith, acquire-start now prev s h), rw kept at later)

-- Calls that come one by one, each after the start before it, go ahead at least the minimum gap
-- apart, on a throttle that is new and has a gap.
pub starts-Spaced :
    (gap first : ℕ) (calls : List ℕ)
    → gap ≢ 0
    → OneByOne 0 (first ∷ calls) (starts (first ∷ calls) (new gap))
    → Spaced gap 0 (starts (first ∷ calls) (new gap))
unfolding starts new
starts-Spaced gap first calls g o =
    let (reserved, kept) = acquire-reserves first (new gap) g in
    let later =
      Spaced-from calls (acquire first (new gap)).0 (first + (acquire first (new gap)).1)
        (rw kept g) reserved o.1 in
    (omega arith, rw kept at later)

-- A caller that arrives before the last reserved start, while another caller still sleeps, goes
-- ahead less than the minimum gap after that start.
pub acquire_crowds :
    (now prev : ℕ) (s : LocalThrottle)
    → s.last_request ≡ some prev
    → now < prev
    → now + (acquire now s).1 < prev + s.min_gap
acquire_crowds now prev s h early = ground (arith, acquire-start now prev s h)
