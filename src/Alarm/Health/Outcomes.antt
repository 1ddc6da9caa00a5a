-- ===== src/Alarm/Health/Outcomes.antt =====
-- The chain outcomes of alarm/registry.rs: the signal reads off the latest evidence.
use crypto_collector.Prelude.{
  ℕ, ◌<◌, Bool, false, Option, some, none, List, [], ◌∷◌, ◌≡◌, arith, any, filter_by, not,
}
use crypto_collector.Attempts.{AttemptRecord}
use crypto_collector.Alarm.Health.{
  HealthRegistry, new_registry, is_success, is_unsupported, observe_chain_records, outcome_of,
  all_providers_down, chain_all_failed_now, record_chain_success, record_chain_all_failed,
}

-- A chain fetch: the instant of its observation and its records.
abbrev pub Fetch : Type 0
Fetch = ℕ × List AttemptRecord

-- The registry after chain fetches, the latest first.
abbrev pub after_fetches : List Fetch → HealthRegistry
after_fetches [] = new_registry
after_fetches (f ∷ fs) = observe_chain_records f.0 f.1 (after_fetches fs)

-- Every instant lies before the bound, and they strictly descend.
abbrev pub Descending : ℕ → List Fetch → Type 0
Descending bound [] = Unit {0}
Descending bound (f ∷ fs) = (f.0 < bound) × Descending f.0 fs

abbrev pub attempted : List AttemptRecord → List AttemptRecord
attempted records = filter_by (λ a. not (is_unsupported a)) records

-- Whether the latest fetch with an attempt failed on every attempt.
abbrev pub latest_failed : List AttemptRecord → Bool → Bool
latest_failed [] earlier = earlier
latest_failed (a ∷ rest) earlier = not (any is_success (a ∷ rest))

abbrev pub down_after : List Fetch → Bool
down_after [] = false
down_after (f ∷ fs) = latest_failed (attempted f.1) (down_after fs)

-- A stamp lies before the bound, if there is one.
abbrev Before : ℕ → Option ℕ → Type 0
Before bound none = Unit {0}
Before bound (some t) = t < bound

record StampedBefore (bound : ℕ) (r : HealthRegistry) : Type 0 where
  all_failed : Before bound r.last_all_failed_at
  success : Before bound r.last_chain_success_at

observed :
    (now bound : ℕ) (rest : List AttemptRecord) (earlier : Bool) (r : HealthRegistry)
    → now < bound
    → StampedBefore now r
    → all_providers_down r ≡ earlier
    → StampedBefore bound (outcome_of now rest r)
      × (all_providers_down (outcome_of now rest r) ≡ latest_failed rest earlier)
unfolding all_providers_down chain_all_failed_now record_chain_success record_chain_all_failed
observed now bound [] earlier r h s e = ground arith
observed now bound (a ∷ rest) earlier r h s e = ground arith

observed_all :
    (bound : ℕ) (fs : List Fetch)
    → Descending bound fs
    → StampedBefore bound (after_fetches fs)
      × (all_providers_down (after_fetches fs) ≡ down_after fs)
unfolding observe_chain_records all_providers_down chain_all_failed_now
observed_all bound [] d = ground arith
observed_all bound (f ∷ fs) d =
    let (stamped, same) = observed_all f.0 fs d.1 in
    observed f.0 bound (attempted f.1) (down_after fs) (after_fetches fs) d.0 stamped same

-- After any chain fetches at strictly later and later instants, all providers count rest down exactly
-- when the latest fetch that attempted a provider failed on every attempt; fetches without an
-- attempt are no evidence.
pub all_providers_down-after_fetches :
    (bound : ℕ) (fs : List Fetch)
    → Descending bound fs
    → all_providers_down (after_fetches fs) ≡ down_after fs
all_providers_down-after_fetches bound fs d = (observed_all bound fs d).1
