-- ===== src/Collectors/Retry.antt =====
-- collectors/retry.rs: the classified failures and the bound on the claims in a cooldown window.
use crypto_collector.Prelude.{
  ℕ, ◌+◌, ◌-◌, ◌*◌, ◌/◌, ◌≤◌, max, String, Bool, true, false, List, [], ◌∷◌, ◌≡◌, arith, length,
  All, Spaced,
}
use crypto_collector.Prelude.Int.{ℤ, pos, pos_part}

pub data DispatchError : Type 0 where
  transient : String → DispatchError
  permanent : String → DispatchError

unfoldable pub is_permanent : DispatchError → Bool
is_permanent (transient _) = false
is_permanent (permanent _) = true

-- `max(0)` of a signed number is its positive part.
unfoldable pub max_claims_in_window : ℤ → ℤ → ℕ
max_claims_in_window window_secs pause_secs =
    let window = pos_part window_secs in
    let pause = max 1 (pos_part pause_secs) in (window + pause - 1) / pause + 1

-- The claims after the first one fit the rest of the window.
claims_fit :
    (gap from limit c : ℕ) (cs : List ℕ)
    → Spaced gap from (c ∷ cs)
    → All (λ x. x ≤ limit) (c ∷ cs)
    → length cs * gap + from ≤ limit
claims_fit gap from limit c [] s a = omega arith
claims_fit gap from limit c (d ∷ cs) s a =
    omega (arith, claims_fit gap (c + gap) limit d cs s.1 a.1, s.0)

count-le-div : (n gap window : ℕ) → n * gap ≤ window → 1 ≤ gap → n ≤ (window + gap - 1) / gap
count-le-div n gap window h g = grind arith

-- A worker that pauses after every claim makes at most the computed number of claims within the
-- window: claims at least the (positive) pause apart, the first at the start of the window or later
-- and none after its end, are no more than `max_claims_in_window`.
pub claims-le-max :
    (window pause : ℕ) (claims : List ℕ)
    → 1 ≤ pause
    → Spaced pause 0 claims
    → All (λ c. c ≤ window) claims
    → length claims ≤ max_claims_in_window (pos window) (pos pause)
unfolding max_claims_in_window
claims-le-max window pause [] p s a = omega arith
claims-le-max window pause (c ∷ cs) p s a =
    let same : max 1 pause ≡ pause = omega arith in
    let few : length cs * pause ≤ window = omega (arith, claims_fit pause 0 window c cs s a) in
    rw same (omega (arith, count-le-div (length cs) pause window few p))
