-- ===== src/Pacer.antt =====
-- The upstream request pacer of pacer/mod.rs: the decision that is free of the database, the
-- diagnosis of a blocked request, the row of upstream_request_pacer and the statements on it.
-- An instant is a number of nanoseconds since the Unix epoch; no instant here lies before it. A
-- statement's clock reading (`now()` in SQL, `Utc::now()` in Rust) is an argument.

pub mod Gates
pub mod Slots
pub mod Budget
pub mod Acquire
pub mod Throttle
use crypto_collector.Prelude.{
  ℕ, ◌+◌, ◌*◌, ◌-◌, ◌/◌, ◌^◌, max, String, Bool, true, false, Option, some, none, List, [], ◌∷◌,
  ltb, leb, ◌&&◌, ◌==◌, any, str_eq, map, if◌then◌else◌, filter_by, not,
}
use crypto_collector.Table.{find, update, string_key}

abbrev pub ms : ℕ
ms = 1_000_000

pub data PacerDecision : Type 0 where
  allow : ℕ → PacerDecision
  cooldown : ℕ → PacerDecision
  credit_exhausted : PacerDecision

-- The second gate of `pacer_decision`.
credit_gate : Option ℕ → ℕ → PacerDecision → PacerDecision
credit_gate none credits_used d = d
credit_gate (some limit) credits_used d =
    if leb limit credits_used then PacerDecision.credit_exhausted else d

unfoldable pub pacer_decision : Option ℕ → Option ℕ → ℕ → ℕ → ℕ → PacerDecision
unfolding credit_gate
pacer_decision none credit_limit credits_used next_allowed_at now =
    credit_gate credit_limit credits_used (allow next_allowed_at)
pacer_decision (some until) credit_limit credits_used next_allowed_at now =
    if ltb now until
    then PacerDecision.cooldown until
    else credit_gate credit_limit credits_used (allow next_allowed_at)

pub data AcquireSlotError : Type 0 where
  cooldown : String → ℕ → AcquireSlotError
  credit_exhausted : String → AcquireSlotError
  not_found : String → AcquireSlotError
  contended : String → AcquireSlotError
  db : AcquireSlotError

abbrev pub pacer_backlog_warn_ms : ℕ
pacer_backlog_warn_ms = 60_000

-- The wait in nanoseconds, cut to whole milliseconds, and the backlog flag.
unfoldable pub sleep_plan : ℕ → ℕ → ℕ × Bool
sleep_plan next_at now =
    let wait_ms = (next_at - now) / ms in
    if leb wait_ms 0 then (0, false) else (wait_ms * ms, ltb pacer_backlog_warn_ms wait_ms)

-- The test on the credit gate of `classify_blocked`.
classify_credit : String → Option ℕ → ℕ → AcquireSlotError
classify_credit provider none credits_used = contended provider
classify_credit provider (some limit) credits_used =
    if leb limit credits_used
    then AcquireSlotError.credit_exhausted provider
    else contended provider

unfoldable pub classify_blocked : String → Option (Option ℕ × Option ℕ × ℕ) → ℕ → AcquireSlotError
unfolding classify_credit
classify_blocked provider none now = not_found provider
classify_blocked provider (some (none, credit_limit, credits_used)) now =
    classify_credit provider credit_limit credits_used
classify_blocked provider (some (some until, credit_limit, credits_used)) now =
    if ltb now until
    then AcquireSlotError.cooldown provider until
    else classify_credit provider credit_limit credits_used

-- models/queue.rs: a row of upstream_request_pacer; the provider is the key of the table.
pub record UpstreamRequestPacer : Type 0 where
  pub next_allowed_at : ℕ
  pub min_gap_ms : ℕ
  pub cooldown_until : Option ℕ
  pub credit_window_start : ℕ
  pub credits_used : ℕ
  pub credit_limit : Option ℕ
  pub updated_at : ℕ

abbrev pub Pacers : Type 0
Pacers = List (String × UpstreamRequestPacer)

-- INTERVAL '1 month' as an interval comparison counts it: thirty days.
abbrev pub month : ℕ
month = 30 * 86_400 * 1000 * ms

unfoldable pub reset_row : ℕ → UpstreamRequestPacer → Option UpstreamRequestPacer
reset_row now r =
    if leb (r.credit_window_start + month) now
    then some (record r { credits_used = 0; credit_window_start = now; updated_at = now })
    else none

unfoldable pub reset_credit_window_if_needed : ℕ → String → Pacers → Pacers
reset_credit_window_if_needed now provider t = (update provider (reset_row now) t).0

-- cooldown_until IS NULL OR cooldown_until <= now()
abbrev pub cooldown_clear : ℕ → Option ℕ → Bool
cooldown_clear now none = true
cooldown_clear now (some until) = leb until now

-- credit_limit IS NULL OR credits_used < credit_limit
abbrev pub credit_clear : ℕ → Option ℕ → Bool
credit_clear credits_used none = true
credit_clear credits_used (some limit) = ltb credits_used limit

-- The gated UPDATE of `acquire_slot` on the row of the provider.
unfoldable pub reserve_row : ℕ → UpstreamRequestPacer → Option UpstreamRequestPacer
reserve_row now r =
    if cooldown_clear now r.cooldown_until && credit_clear r.credits_used r.credit_limit
    then some (record r {
      next_allowed_at = max now r.next_allowed_at + r.min_gap_ms * ms;
      credits_used = r.credits_used + 1;
      updated_at = now;
    })
    else none

-- What the surroundings of one call decide: whether each statement reaches the database, the clock
-- at each reading, and what other replicas write between the UPDATE and the diagnostic SELECT.
pub record Surroundings : Type 0 where
  pub reset_reached : Bool
  pub update_reached : Bool
  pub select_reached : Bool
  pub reset_at : ℕ
  pub update_at : ℕ
  pub sleep_at : ℕ
  pub classify_at : ℕ
  pub meanwhile : Pacers → Pacers

pub data Acquired : Type 0 where
  -- The slot's instant, the sleep and whether the backlog signal was recorded.
  slot : ℕ → ℕ → Bool → Acquired
  error : AcquireSlotError → Acquired

abbrev pub selected : Option UpstreamRequestPacer → Option (Option ℕ × Option ℕ × ℕ)
selected none = none
selected (some r) = some (r.cooldown_until, r.credit_limit, r.credits_used)

-- The `match` on the row that the gated UPDATE returned.
after_update : Surroundings → String → Pacers → Option UpstreamRequestPacer → Pacers × Acquired
after_update s provider t (some r) =
    let (dur, backlog_exceeded) = sleep_plan r.next_allowed_at s.sleep_at in
    (t, slot r.next_allowed_at dur backlog_exceeded)
after_update s provider t none =
    let t' = s.meanwhile t in
    if s.select_reached
    then (t', error (classify_blocked provider (selected (find provider t')) s.classify_at))
    else (t', error db)

unfoldable pub acquire_slot : Surroundings → String → Pacers → Pacers × Acquired
unfolding after_update
acquire_slot s provider t =
    if s.reset_reached
    then (let t₁ = reset_credit_window_if_needed s.reset_at provider t in
        if s.update_reached
        then (let (t₂, row) = update provider (reserve_row s.update_at) t₁ in
            after_update s provider t₂ row)
        else (t₁, error db))
    else (t, error db)

abbrev pub or_epoch : Option ℕ → ℕ
or_epoch none = 0
or_epoch (some until) = until

-- The UPDATE of `signal_cooldown`; `until` is the reading of `Utc::now()` plus the cooldown.
unfoldable pub signal_row : ℕ → ℕ → UpstreamRequestPacer → Option UpstreamRequestPacer
signal_row now until r =
    some
      (record r { cooldown_until = some (max (or_epoch r.cooldown_until) until); updated_at = now })

unfoldable pub signal_cooldown : ℕ → ℕ → String → ℕ → Pacers → Pacers
signal_cooldown clock now provider cooldown_ms t =
    (update provider (signal_row now (clock + cooldown_ms * ms)) t).0

-- The names of the chain that have no row.
unfoldable pub missing_pacer_rows : Pacers → List String → List String
missing_pacer_rows t providers =
    let present = filter_by (λ p. any (str_eq p) providers) (map (λ row. row.0) t) in
    filter_by (λ p. not (any (str_eq p) present)) providers
