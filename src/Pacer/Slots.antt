-- ===== src/Pacer/Slots.antt =====
-- Rows of the pacer over time (pacer/mod.rs): every statement on a row is a step, and along steps
-- slots are spaced and cooldowns never shorten, whatever other replicas do in between.
use crypto_collector.Prelude.{ℕ, ◌+◌, ◌*◌, ◌≤◌, some, ◌≡◌, arith}
use crypto_collector.Table.{string_key}
use crypto_collector.Pacer.{UpstreamRequestPacer, reserve_row, reset_row, signal_row, ms, or_epoch}
use crypto_collector.Pacer.Gates.{reserve_row-eq-some}

-- One statement of any replica on the row of a provider.
pub data RowStep : UpstreamRequestPacer → UpstreamRequestPacer → Type 0 where
  reset : {r r' : UpstreamRequestPacer} (now : ℕ) → reset_row now r ≡ some r' → RowStep r r'
  reserve : {r r' : UpstreamRequestPacer} (now : ℕ) → reserve_row now r ≡ some r' → RowStep r r'
  signal :
      {r r' : UpstreamRequestPacer} (now until : ℕ)
      → signal_row now until r ≡ some r'
      → RowStep r r'

pub data RowReach (r : UpstreamRequestPacer) : UpstreamRequestPacer → Type 0 where
  here : RowReach r r
  next : {s t : UpstreamRequestPacer} → RowReach r s → RowStep s t → RowReach r t

-- What no step takes back.
pub record Monotone (r r' : UpstreamRequestPacer) : Type 0 where
  pub slots : r.next_allowed_at ≤ r'.next_allowed_at
  pub cooldowns : or_epoch r.cooldown_until ≤ or_epoch r'.cooldown_until
  pub gap : r'.min_gap_ms ≡ r.min_gap_ms
  pub limit : r'.credit_limit ≡ r.credit_limit

RowStep-Monotone : {r r' : UpstreamRequestPacer} → RowStep r r' → Monotone r r'
unfolding reset_row reserve_row signal_row
RowStep-Monotone (reset now h) = ground arith
RowStep-Monotone (reserve now h) = ground arith
RowStep-Monotone (signal now until h) = ground arith

-- Along any statements of any replicas the next slot and the cooldown only move forward, and the gap
-- and the credit limit stay.
pub RowReach-Monotone : {r r' : UpstreamRequestPacer} → RowReach r r' → Monotone r r'
RowReach-Monotone here = ground arith
RowReach-Monotone (next p s) = ground (arith, RowReach-Monotone p, RowStep-Monotone s)

-- Two slots of one provider, with any statements of any replicas in between, are at least the
-- minimum gap apart, and the later one is a gap after the instant of its own call.
pub slots_spaced :
    (first second : ℕ) (r a b c : UpstreamRequestPacer)
    → reserve_row first r ≡ some a
    → RowReach a b
    → reserve_row second b ≡ some c
    → (a.next_allowed_at + r.min_gap_ms * ms ≤ c.next_allowed_at)
      × (second + r.min_gap_ms * ms ≤ c.next_allowed_at)
slots_spaced first second r a b c h p k =
    let (_, _, _, _, kept, _) = reserve_row-eq-some first r a h in
    let taken = (reserve_row-eq-some second b c k).0 in
    let m = RowReach-Monotone p in
    let same : b.min_gap_ms * ms ≡ r.min_gap_ms * ms = rw (m.gap, kept) in omega (arith, m.slots)

-- After a cooldown signal, with any statements in between, no slot is given before the signalled
-- instant: a request that is granted comes at or after it.
pub cooldown_respected :
    (now until later : ℕ) (r a b c : UpstreamRequestPacer)
    → signal_row now until r ≡ some a
    → RowReach a b
    → reserve_row later b ≡ some c
    → until ≤ later
unfolding signal_row reserve_row
cooldown_respected now until later r a b c h p k = ground (arith, RowReach-Monotone p)
