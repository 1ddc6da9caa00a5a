-- ===== src/Providers/Fallback.antt =====
-- `chain_try` of providers/mod.rs: the answer of the paced fallback, and what it stamps on the chain.
use crypto_collector.Prelude.{
  ℕ, Bool, true, false, Option, some, none, List, [], ◌∷◌, ◌≡◌, refl, arith, if◌then◌else◌, ◌&&◌,
}
use crypto_collector.Attempts.{Capability}
use crypto_collector.Pacer.{AcquireSlotError}
use crypto_collector.Alarm.Health.{
  HealthRegistry, record_provider_success, record_provider_network_failure, record_chain_success,
  record_chain_all_failed,
}
use crypto_collector.Providers.Answers.{or_option, failure_of}
use crypto_collector.Providers.{
  Provider, Result, ok, err, ProviderError, Attempts, chain_try, try_walk, try_step, try_nothing,
  pacer, other, no_capable_provider, is_nil,
}

abbrev pub is_free : Option AcquireSlotError → Bool
is_free none = true
is_free (some e) = false

-- The provider is fetched if the walk gets to it.
abbrev pub is_fetched : {A : Type 0} → Provider A → Bool
is_fetched p = p.supports && is_free p.pace

-- The answer, and its instant, of the first fetched provider that succeeds.
abbrev pub stamped : {A : Type 0} → Provider A → Result A → Option (A × ℕ)
stamped p (ok v) = some (v, p.at)
stamped p (err e) = none

abbrev pub first_served : {A : Type 0} → List (Provider A) → Option (A × ℕ)
first_served [] = none
first_served (p ∷ chain) =
    if is_fetched p then or_option (stamped p p.fetch) (first_served chain) else first_served chain

abbrev pub last_fetch_failure : {A : Type 0} → List (Provider A) → Option ProviderError
last_fetch_failure [] = none
last_fetch_failure (p ∷ chain) =
    if is_fetched p
    then or_option (last_fetch_failure chain) (failure_of p.fetch)
    else last_fetch_failure chain

abbrev pub last_refusal : {A : Type 0} → List (Provider A) → Option AcquireSlotError
last_refusal [] = none
last_refusal (p ∷ chain) =
    if p.supports then or_option (last_refusal chain) p.pace else last_refusal chain

-- The answer of a chain, from its first success, last failure and last refusal.
abbrev pub settled_by :
    {A : Type 0}
    → Capability
    → Bool
    → Option (A × ℕ)
    → Option ProviderError
    → Option AcquireSlotError
    → Result A
settled_by capability is_empty (some v) failure refusal = ok (v.0)
settled_by capability is_empty none (some e) refusal = err e
settled_by capability is_empty none none (some refusal) = err (pacer refusal)
settled_by capability true none none none = err (other "empty provider chain")
settled_by capability false none none none = err (no_capable_provider capability)

-- The two chain stamps afterwards: a success sets its own, a failed chain the other, and pure
-- backpressure neither.
abbrev pub failed_stamp :
    {A : Type 0} → ℕ → Option (A × ℕ) → Option ProviderError → Option ℕ → Option ℕ
failed_stamp now (some v) failure earlier = earlier
failed_stamp now none (some e) earlier = some now
failed_stamp now none none earlier = earlier

abbrev pub success_stamp : {A : Type 0} → Option (A × ℕ) → Option ℕ → Option ℕ
success_stamp (some v) earlier = some (v.1)
success_stamp none earlier = earlier

abbrev pub failed_of : Option HealthRegistry → Option ℕ
failed_of none = none
failed_of (some r) = r.last_all_failed_at

abbrev pub success_of : Option HealthRegistry → Option ℕ
success_of none = none
success_of (some r) = r.last_chain_success_at

-- A stamp, where there is a registry to put it on.
abbrev pub kept_in : Option HealthRegistry → Option ℕ → Option ℕ
kept_in none stamp = none
kept_in (some r) stamp = stamp

module _ {A : Type 0} where
  -- The chain in which nothing was fetched.
  nothing_fetched :
      (capability : Capability) (is_empty : Bool) (refusal : Option AcquireSlotError)
      → settled_by {A = A} capability is_empty none none refusal
        ≡ err (try_nothing capability is_empty refusal)
  nothing_fetched capability is_empty (some e) = refl
  nothing_fetched capability true none = refl
  nothing_fetched capability false none = refl

  try_walk-answer :
      (capability : Capability) (is_empty : Bool) (now : ℕ) (chain : List (Provider A))
      (a : Attempts)
      → (try_walk capability is_empty now chain a).0
        ≡ settled_by capability is_empty
            (first_served chain)
            (or_option (last_fetch_failure chain) a.last_fetch_err)
            (or_option (last_refusal chain) a.last_pace_err)
  try_walk-answer capability is_empty now [] a =
      ground (arith, nothing_fetched capability is_empty a.last_pace_err)
  try_walk-answer capability is_empty now (p ∷ chain) a =
      ground (arith, try_walk-answer capability is_empty now chain (try_step p a).0)

  try_walk-failed :
      (capability : Capability) (is_empty : Bool) (now : ℕ) (chain : List (Provider A))
      (a : Attempts)
      → failed_of (try_walk capability is_empty now chain a).1
        ≡ kept_in a.registry (
            failed_stamp now
              (first_served chain)
              (or_option (last_fetch_failure chain) a.last_fetch_err)
              (failed_of a.registry))
  unfolding record_provider_success record_provider_network_failure record_chain_success
      record_chain_all_failed
  try_walk-failed capability is_empty now [] a = ground arith
  try_walk-failed capability is_empty now (p ∷ chain) a =
      ground (arith, try_walk-failed capability is_empty now chain (try_step p a).0)

  try_walk-success :
      (capability : Capability) (is_empty : Bool) (now : ℕ) (chain : List (Provider A))
      (a : Attempts)
      → success_of (try_walk capability is_empty now chain a).1
        ≡ kept_in a.registry (success_stamp (first_served chain) (success_of a.registry))
  unfolding record_provider_success record_provider_network_failure record_chain_success
      record_chain_all_failed
  try_walk-success capability is_empty now [] a = ground arith
  try_walk-success capability is_empty now (p ∷ chain) a =
      ground (arith, try_walk-success capability is_empty now chain (try_step p a).0)

  -- The generic chain answers with the first supported provider that the pacer lets through and whose
  -- fetch succeeds, and stamps the chain's success at that instant. If none does, the last fetch error
  -- is the answer and the chain is stamped as failed; where every supported provider was paced out the
  -- answer is the pacer's last error, and nothing is stamped: backpressure is no failure of the chain.
  -- Without a supported provider it reports an empty or an incapable chain.
  pub chain_try_lem :
      (capability : Capability) (now : ℕ) (chain : List (Provider A))
      (registry : Option HealthRegistry)
      → let done = chain_try capability now chain registry in
        (done.0
          ≡ settled_by capability
              (is_nil chain)
              (first_served chain)
              (last_fetch_failure chain)
              (last_refusal chain))
        × (failed_of done.1
            ≡ kept_in registry (
                failed_stamp now
                  (first_served chain)
                  (last_fetch_failure chain)
                  (failed_of registry)))
        × (success_of done.1
            ≡ kept_in registry (success_stamp (first_served chain) (success_of registry)))
  unfolding chain_try
  chain_try_lem capability now chain registry =
      let a : Attempts = record {
        last_fetch_err = none;
        last_pace_err = none;
        registry = registry;
      } in
      (
        ground (arith, try_walk-answer capability (is_nil chain) now chain a),
        ground (arith, try_walk-failed capability (is_nil chain) now chain a),
        ground (arith, try_walk-success capability (is_nil chain) now chain a),
      )
