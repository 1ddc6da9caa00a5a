-- ===== src/Pacer/Budget.antt =====
-- The monthly credit budget of pacer/mod.rs: what a run of statements between two resets can spend.
use crypto_collector.Prelude.{ℕ, suc, ◌+◌, ◌≤◌, Option, some, none, ◌≡◌, arith}
use crypto_collector.Pacer.{UpstreamRequestPacer, reserve_row, reset_row, signal_row, month}

-- A run without a reset of the window that gave `n` slots.
pub data Spends (r : UpstreamRequestPacer) : ℕ → UpstreamRequestPacer → Type 0 where
  idle : Spends r 0 r
  reserve :
      {n : ℕ} {s t : UpstreamRequestPacer} (now : ℕ)
      → Spends r n s
      → reserve_row now s ≡ some t
      → Spends r (suc n) t
  signal :
      {n : ℕ} {s t : UpstreamRequestPacer} (now until : ℕ)
      → Spends r n s
      → signal_row now until s ≡ some t
      → Spends r n t

abbrev pub WithinLimit : Option ℕ → ℕ → Type 0
WithinLimit none used = Unit {0}
WithinLimit (some limit) used = used ≤ limit

Spends-charged :
    {r s : UpstreamRequestPacer} {n : ℕ}
    → Spends r n s
    → (s.credits_used ≡ r.credits_used + n) × (s.credit_limit ≡ r.credit_limit)
unfolding reserve_row signal_row
Spends-charged idle = ground arith
Spends-charged (reserve now p h) = ground (arith, Spends-charged p)
Spends-charged (signal now until p h) = ground (arith, Spends-charged p)

Spends-WithinLimit :
    {r s : UpstreamRequestPacer} {n : ℕ}
    → Spends r n s
    → WithinLimit r.credit_limit r.credits_used
    → WithinLimit s.credit_limit s.credits_used
unfolding reserve_row signal_row
Spends-WithinLimit idle w = w
Spends-WithinLimit (reserve now p h) w = ground (arith, Spends-WithinLimit p w)
Spends-WithinLimit (signal now until p h) w = ground (arith, Spends-WithinLimit p w)

-- Between two resets of the window, every slot given is charged as one credit, and a row that starts
-- within its limit never gives more slots than the limit leaves.
pub slots_within_budget :
    {r s : UpstreamRequestPacer} {n : ℕ}
    → Spends r n s
    → WithinLimit r.credit_limit r.credits_used
    → (s.credits_used ≡ r.credits_used + n) × WithinLimit r.credit_limit (r.credits_used + n)
slots_within_budget {r} {s} {n} p w =
    let (charged, kept) = Spends-charged p in
    (charged, rw (← charged, ← kept) (Spends-WithinLimit p w))

-- The window is reset at the earliest thirty days after its start, and then the whole budget is
-- there again from that instant.
pub reset_row-eq-some :
    (now : ℕ) (r r' : UpstreamRequestPacer)
    → reset_row now r ≡ some r'
    → (r.credit_window_start + month ≤ now)
      × (r'.credits_used ≡ 0)
      × (r'.credit_window_start ≡ now)
      × (r'.credit_limit ≡ r.credit_limit)
      × (r'.next_allowed_at ≡ r.next_allowed_at)
      × (r'.cooldown_until ≡ r.cooldown_until)
unfolding reset_row
reset_row-eq-some now r r' h = ground arith
