-- ===== src/Pacer/Gates.antt =====
-- The two gates of pacer/mod.rs: the guarded UPDATE, the pure decision and the diagnosis agree.
use crypto_collector.Prelude.{
  ℕ, ◌+◌, ◌*◌, ◌≤◌, ◌<◌, String, Option, some, none, ◌≡◌, ◌↔◌, arith, max, true,
}
use crypto_collector.Pacer.{
  PacerDecision, AcquireSlotError, pacer_decision, classify_blocked, UpstreamRequestPacer,
  reserve_row, selected, sleep_plan, ms, pacer_backlog_warn_ms,
}

-- The error that a decision stands for; `none` where the request is allowed.
abbrev pub blocked_by : String → PacerDecision → Option AcquireSlotError
blocked_by provider (PacerDecision.allow at) = none
blocked_by provider (PacerDecision.cooldown until) = some (AcquireSlotError.cooldown provider until)
blocked_by provider PacerDecision.credit_exhausted =
    some (AcquireSlotError.credit_exhausted provider)

-- The decision on a row at an instant.
abbrev pub row_decision : UpstreamRequestPacer → ℕ → PacerDecision
row_decision r now =
    pacer_decision r.cooldown_until r.credit_limit r.credits_used r.next_allowed_at now

-- What the guarded UPDATE and, where it refuses, the diagnosis at the same instant report.
abbrev pub outcome :
    String → ℕ → UpstreamRequestPacer → Option UpstreamRequestPacer → Option AcquireSlotError
outcome provider now r none = some (classify_blocked provider (selected (some r)) now)
outcome provider now r (some r') = none

-- The guarded UPDATE takes a row exactly when the pure decision allows it, and a refused row is
-- diagnosed at that instant with the error of the decision: never as contended or absent.
pub reserve_row-decision :
    (provider : String) (now : ℕ) (r : UpstreamRequestPacer)
    → outcome provider now r (reserve_row now r) ≡ blocked_by provider (row_decision r now)
unfolding reserve_row pacer_decision classify_blocked
reserve_row-decision provider now r = ground arith

-- A reserved row is taken from the front of the queue of slots: the new slot is a whole gap after
-- the old one and after the instant of the call, one credit is charged, and nothing else but the
-- time stamp changes.
pub reserve_row-eq-some :
    (now : ℕ) (r r' : UpstreamRequestPacer)
    → reserve_row now r ≡ some r'
    → (r'.next_allowed_at ≡ max now r.next_allowed_at + r.min_gap_ms * ms)
      × (r'.credits_used ≡ r.credits_used + 1)
      × (r'.credit_limit ≡ r.credit_limit)
      × (r'.cooldown_until ≡ r.cooldown_until)
      × (r'.min_gap_ms ≡ r.min_gap_ms)
      × (r'.credit_window_start ≡ r.credit_window_start)
unfolding reserve_row
reserve_row-eq-some now r r' h = ground arith

-- The sleep ends less than a millisecond before the reserved instant, and never after it by more
-- than the wait: it is the whole wait in milliseconds. The backlog flag is raised exactly for waits
-- above the threshold, and does not change the sleep.
pub sleep_plan_full :
    (next_at now : ℕ)
    → (next_at < now + (sleep_plan next_at now).0 + ms)
      × (now + (sleep_plan next_at now).0 ≤ max next_at now)
      × (((sleep_plan next_at now).1 ≡ true)
          ↔ (pacer_backlog_warn_ms * ms < (sleep_plan next_at now).0))
unfolding sleep_plan
sleep_plan_full next_at now = ground arith
