-- ===== src/Pacer/Acquire.antt =====
-- `acquire_slot`, `signal_cooldown` and `missing_pacer_rows` of pacer/mod.rs over the whole table.
use crypto_collector.Prelude.{
  ℕ, ◌+◌, ◌≤◌, ◌<◌, String, some, none, ◌≡◌, arith, max, Bool, true, Option-cases, inl, inr, ◌≢◌,
  str_eq_iff,
}
use crypto_collector.Table.{find, update, find-update, update_taken, update_refused, string_key}
use crypto_collector.Pacer.{
  Pacers, UpstreamRequestPacer, reserve_row, reset_row, ms, Surroundings, acquire_slot, slot, error,
  reset_credit_window_if_needed, AcquireSlotError, classify_blocked,
}
use crypto_collector.Pacer.Gates.{blocked_by, row_decision, reserve_row-decision, sleep_plan_full}

-- A slot comes from a row that the gated UPDATE took after the reset of the window: the table then
-- holds the charged row, the slot is that row's instant, and the caller sleeps up to it, less than a
-- millisecond short and never past it.
pub acquire_slot-slot :
    (s : Surroundings) (provider : String) (t t' : Pacers) (at dur : ℕ) (backlog : Bool)
    → acquire_slot s provider t ≡ (t', slot at dur backlog)
    → (r r' : UpstreamRequestPacer) × (find provider
          (reset_credit_window_if_needed s.reset_at provider t)
        ≡ some r)
      × (reserve_row s.update_at r ≡ some r')
      × (find provider t' ≡ some r')
      × (at ≡ r'.next_allowed_at)
      × (at < s.sleep_at + dur + ms)
      × (s.sleep_at + dur ≤ max at s.sleep_at)
unfolding acquire_slot
acquire_slot-slot s provider t t' at dur backlog h =
    let t₁ = reset_credit_window_if_needed s.reset_at provider t in
    let f = reserve_row s.update_at in
    elim (Option-cases (find provider t₁)) [
      | inl absent ↦ absurd (ground (arith, update_refused provider f t₁ (rw absent)))
      | inr (r, found) ↦ elim (Option-cases (f r)) [
        | inl refused ↦ absurd (ground (arith, update_refused provider f t₁ (rw (found, refused))))
        | inr (r', taken) ↦
            let (row, stored) = update_taken provider f t₁ found taken in
            (
              r,
              r',
              found,
              taken,
              ground (arith, row, stored),
              ground (arith, row),
              ground (arith, row, sleep_plan_full r'.next_allowed_at s.sleep_at),
              ground (arith, row, sleep_plan_full r'.next_allowed_at s.sleep_at),
            )
      ]
    ]

-- A provider without a row is reported as not found, whatever instants the statements read, if the
-- database is reached and no other replica writes the row in between.
pub acquire_slot-not_found :
    (s : Surroundings) (provider : String) (t : Pacers)
    → s.reset_reached ≡ true
    → s.update_reached ≡ true
    → s.select_reached ≡ true
    → find provider t ≡ none
    → find provider (s.meanwhile t) ≡ none
    → acquire_slot s provider t ≡ (s.meanwhile t, error (AcquireSlotError.not_found provider))
unfolding acquire_slot reset_credit_window_if_needed classify_blocked
acquire_slot-not_found s provider t a b c absent still = ground (
  arith,
  update_refused provider (reset_row s.reset_at) t (rw absent),
  update_refused provider (reserve_row s.update_at) t (rw absent),
)

-- A row that a gate closes is reported with the decision's error and nothing is charged, if the
-- database is reached, no other replica writes in between and the diagnosis reads the clock of the
-- UPDATE. The table is the one after the reset of the window.
pub acquire_slot-blocked :
    (s : Surroundings) (provider : String) (t : Pacers) (r : UpstreamRequestPacer)
    (e : AcquireSlotError)
    → s.reset_reached ≡ true
    → s.update_reached ≡ true
    → s.select_reached ≡ true
    → find provider (reset_credit_window_if_needed s.reset_at provider t) ≡ some r
    → s.meanwhile (reset_credit_window_if_needed s.reset_at provider t)
      ≡ reset_credit_window_if_needed s.reset_at provider t
    → s.classify_at ≡ s.update_at
    → blocked_by provider (row_decision r s.update_at) ≡ some e
    → acquire_slot s provider t ≡ (reset_credit_window_if_needed s.reset_at provider t, error e)
unfolding acquire_slot
acquire_slot-blocked s provider t r e a b c found quiet same blocked =
    let t₁ = reset_credit_window_if_needed s.reset_at provider t in
    let agrees = reserve_row-decision provider s.update_at r in
    elim (Option-cases (reserve_row s.update_at r)) [
      | inl refused ↦ ground (
        arith,
        agrees,
        update_refused provider (reserve_row s.update_at) t₁ (rw (found, refused)),
      )
      | inr (r', taken) ↦ absurd (ground (arith, agrees))
    ]

-- A call for one provider leaves every other provider's row as it is, on every branch, if the
-- writes of the other replicas do.
pub acquire_slot-others :
    (s : Surroundings) (provider q : String) (t : Pacers)
    → provider ≢ q
    → ((u : Pacers) → find q (s.meanwhile u) ≡ find q u)
    → find q (acquire_slot s provider t).0 ≡ find q t
unfolding acquire_slot reset_credit_window_if_needed
acquire_slot-others s provider q t other quiet =
    let t₁ = (update provider (reset_row s.reset_at) t).0 in
    let t₂ = (update provider (reserve_row s.update_at) t₁).0 in
    ground (
      arith,
      str_eq_iff provider q,
      find-update provider q (reset_row s.reset_at) t,
      find-update provider q (reserve_row s.update_at) t₁,
      quiet t₂,
    )
