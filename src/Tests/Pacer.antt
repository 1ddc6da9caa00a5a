-- ===== src/Tests/Pacer.antt =====
-- Witnesses for the properties of the pacer, at small concrete rows.
use crypto_collector.Prelude.{
  ◌+◌, ◌*◌, ◌≤◌, ◌<◌, String, true, false, some, none, [], ◌∷◌, ◌≡◌, refl, arith, max,
}
use crypto_collector.Table.{find, update, string_key}
use crypto_collector.Pacer.{
  ms, Pacers, UpstreamRequestPacer, AcquireSlotError, reserve_row, reset_row, signal_row,
  sleep_plan, Surroundings, acquire_slot, slot, error, reset_credit_window_if_needed,
  pacer_decision, month,
}
use crypto_collector.Pacer.Gates.{outcome, blocked_by, row_decision, reserve_row-decision}
use crypto_collector.Pacer.Slots.{here, slots_spaced, cooldown_respected}
use crypto_collector.Pacer.Budget.{Spends, idle, WithinLimit, slots_within_budget}
use crypto_collector.Pacer.Acquire.{acquire_slot-slot, acquire_slot-blocked}
use crypto_collector.Pacer.Throttle.{LocalThrottle, acquire, acquire_crowds}

abbrev row : UpstreamRequestPacer
row = record {
  next_allowed_at = 100;
  min_gap_ms = 2;
  cooldown_until = none;
  credit_window_start = 0;
  credits_used = 4;
  credit_limit = some 6;
  updated_at = 0;
}

abbrev row_1 : UpstreamRequestPacer
row_1 = record row { next_allowed_at = 2_000_200; credits_used = 5; updated_at = 200 }

abbrev row_2 : UpstreamRequestPacer
row_2 = record row { next_allowed_at = 4_000_200; credits_used = 6; updated_at = 300 }

abbrev cooled : UpstreamRequestPacer
cooled = record row { cooldown_until = some 500; updated_at = 7 }

abbrev cooled_1 : UpstreamRequestPacer
cooled_1 = record row {
  cooldown_until = some 500;
  next_allowed_at = 2_000_600;
  credits_used = 5;
  updated_at = 600;
}

row-takes_1 : reserve_row 200 row ≡ some row_1
unfolding reserve_row
row-takes_1 = refl

row-takes_2 : reserve_row 300 row_1 ≡ some row_2
unfolding reserve_row
row-takes_2 = refl

row-cools : signal_row 7 500 row ≡ some cooled
unfolding signal_row
row-cools = refl

cooled-takes : reserve_row 600 cooled ≡ some cooled_1
unfolding reserve_row
cooled-takes = refl

slots_spaced_example :
    (row_1.next_allowed_at + 2 * ms ≤ row_2.next_allowed_at)
    × (300 + 2 * ms ≤ row_2.next_allowed_at)
slots_spaced_example = slots_spaced 200 300 row row_1 row_1 row_2 row-takes_1 here row-takes_2

cooldown_respected_example : 500 ≤ 600
cooldown_respected_example =
    cooldown_respected 7 500 600 row cooled cooled cooled_1 row-cools here cooled-takes

reserve_row-decision_example :
    outcome "kraken" 9 row (reserve_row 9 row) ≡ blocked_by "kraken" (row_decision row 9)
reserve_row-decision_example = reserve_row-decision "kraken" 9 row

slots_within_budget_example :
    (row_2.credits_used ≡ row.credits_used + 2)
    × WithinLimit row.credit_limit (row.credits_used + 2)
slots_within_budget_example =
    slots_within_budget (Spends.reserve 300 (Spends.reserve 200 idle row-takes_1) row-takes_2)
      (omega arith)

abbrev renewed : UpstreamRequestPacer
renewed = record row { credits_used = 0; credit_window_start = month; updated_at = month }

abbrev calm : Surroundings
calm = record {
  reset_reached = true;
  update_reached = true;
  select_reached = true;
  reset_at = 200;
  update_at = 200;
  sleep_at = 200;
  classify_at = 200;
  meanwhile = λ t. t;
}

abbrev table : Pacers
table = ("kraken", row) ∷ []

abbrev cold_table : Pacers
cold_table = ("kraken", cooled) ∷ []

acquires :
    acquire_slot calm "kraken" table ≡ (("kraken", row_1) ∷ [], slot 2_000_200 2_000_000 false)
unfolding acquire_slot reset_credit_window_if_needed update reset_row reserve_row sleep_plan
acquires = refl

acquire_slot-slot_example :
    (r r' : UpstreamRequestPacer) × (find {K = String} "kraken"
        (reset_credit_window_if_needed calm.reset_at "kraken" table)
      ≡ some r)
    × (reserve_row calm.update_at r ≡ some r')
    × (find {K = String} "kraken" (("kraken", row_1) ∷ []) ≡ some r')
    × (2_000_200 ≡ r'.next_allowed_at)
    × (2_000_200 < calm.sleep_at + 2_000_000 + ms)
    × (calm.sleep_at + 2_000_000 ≤ max 2_000_200 calm.sleep_at)
acquire_slot-slot_example =
    acquire_slot-slot calm "kraken" table (("kraken", row_1) ∷ []) 2_000_200 2_000_000 false
      acquires

cold_row : find "kraken" (reset_credit_window_if_needed 200 "kraken" cold_table) ≡ some cooled
unfolding find reset_credit_window_if_needed update reset_row
cold_row = refl

cold_decision :
    blocked_by "kraken" (row_decision cooled 200) ≡ some (AcquireSlotError.cooldown "kraken" 500)
unfolding pacer_decision
cold_decision = refl

acquire_slot-blocked_example : acquire_slot calm "kraken" cold_table ≡ (
  reset_credit_window_if_needed calm.reset_at "kraken" cold_table,
  error (AcquireSlotError.cooldown "kraken" 500),
)
acquire_slot-blocked_example =
    acquire_slot-blocked calm "kraken" cold_table cooled (AcquireSlotError.cooldown "kraken" 500)
      refl refl refl cold_row refl refl cold_decision

abbrev ahead : LocalThrottle
ahead = record { last_request = some 13; min_gap = 10 }

acquire_crowds_example : 5 + (acquire 5 ahead).1 < 13 + 10
acquire_crowds_example = acquire_crowds 5 13 ahead refl (omega arith)
