-- ===== src/Tests/LivePoller.antt =====
-- Witnesses for the properties of the live poller.
use crypto_collector.Prelude.{
  ℕ, ◌+◌, ◌*◌, ◌≤◌, ◌≡◌, ◌⊎◌, ◌&&◌, refl, String, Bool, true, false, not, Option, some, none, List,
  [], ◌∷◌, ◌++◌, map, leb, str_eq, if◌then◌else◌, length, arith, All, find_by, filter_by, sort_by,
}
use crypto_collector.Candles.{second}
use crypto_collector.Attempts.{Capability}
use crypto_collector.Providers.{Result, Provider, chain_try}
use crypto_collector.Collectors.LivePoller.{
  PolledCoin, is_market_due, is_claimable, most_overdue, select_due, has_id, with_marker,
  claim_due_coins, settle, success, Polling, Polled, poll_coin,
}
use crypto_collector.Collectors.LivePoller.Due.{
  has_coin, due_after, is_claimable-is_market_due, poll_coin-next_due,
}
use crypto_collector.Collectors.LivePoller.Claims.{claim_due_coins_lem}
use crypto_collector.Collectors.LivePoller.Fence.{
  starts, claims, settles, claim_due_coins_exclusive,
}

abbrev coin : String → Option ℕ → PolledCoin
coin coin_id last_polled_at = record {
  coin_id = coin_id;
  symbol = coin_id;
  status = "active";
  last_polled_at = last_polled_at;
  last_collected_at = last_polled_at;
  live_poll_interval = none;
  live_poll_claimed_until = none;
}

abbrev unlocked : PolledCoin → Bool
unlocked r = false

is_claimable-is_market_due_example :
    is_claimable (90 * second) 60 (coin "btc" (some (20 * second)))
    ≡ str_eq "active" "active" && is_market_due (some (20 * second)) none 60 none (90 * second)
is_claimable-is_market_due_example =
    is_claimable-is_market_due (90 * second) 60 (coin "btc" (some (20 * second)))

abbrev rows : List PolledCoin
rows = coin "btc" (some (20 * second)) ∷ coin "eth" none ∷ coin "ltc" (some (10 * second)) ∷ []

claim_due_coins_lem_example :
    let first = select_due (90 * second) 60 2 unlocked rows in
    (waiting : List PolledCoin) × ((claim_due_coins (90 * second) 60 120 2 unlocked rows).0
      ≡ map (with_marker (90 * second + 120 * second)) first)
    × (sort_by most_overdue
          (filter_by (λ r. is_claimable (90 * second) 60 r && not (unlocked r)) rows)
        ≡ first ++ waiting)
    × All (λ c. (is_claimable (90 * second) 60 c ≡ true) × (unlocked c ≡ false)) first
    × All (λ c. All (λ r. most_overdue c r ≡ true) waiting) first
    × ((waiting ≡ []) ⊎ (length first ≡ 2))
    × (length first ≤ 2)
claim_due_coins_lem_example = claim_due_coins_lem (90 * second) 60 120 2 unlocked rows

abbrev after_claim : List PolledCoin
after_claim = (claim_due_coins (90 * second) 60 120 1 unlocked rows).1

-- The next poller has claimed and settled the others.
abbrev between : List PolledCoin
between =
    settle (95 * second) 3_600 success "btc"
      (claim_due_coins (91 * second) 60 120 2 unlocked after_claim).1

claim_due_coins_exclusive_example :
    has_id (claim_due_coins (209 * second) 60 120 50 unlocked between).0 "eth" ≡ false
unfolding claim_due_coins select_due sort_by is_claimable
claim_due_coins_exclusive_example =
    claim_due_coins_exclusive (90 * second) 60 120 1 unlocked rows between "eth" refl
      (settles (95 * second) 3_600 success "btc" refl
        (claims (91 * second) 60 120 2 unlocked (omega arith) starts))
      (209 * second) 60 120 50 unlocked (omega arith)

abbrev kraken : Provider ℕ
kraken = record {
  name = "kraken";
  supports = true;
  pace = none;
  fetch = Result.ok 65_000;
  at = 92 * second;
}

abbrev answers : String → Polling ℕ
answers coin_id = record {
  shutdown = false;
  chain = kraken ∷ [];
  at = 92 * second;
  stored = true;
  reached = true;
  settled_at = 93 * second;
}

abbrev claimed : Polled ℕ
claimed = record {
  rows = with_marker (210 * second) (coin "eth" none) ∷ [];
  quotes = [];
  registry = none;
}

poll_coin-next_due_example :
    let answer = (chain_try Capability.spot (92 * second) (kraken ∷ []) none).0 in
    (row : PolledCoin) × (find_by (has_coin "eth") (poll_coin 3_600 answers "eth" claimed).rows
      ≡ some row)
    × (is_claimable (100 * second) 60 row
        ≡ leb
            (if true
              then due_after (93 * second) 60 3_600 answer true (coin "eth" none)
              else 210 * second)
            (100 * second))
unfolding is_claimable
poll_coin-next_due_example =
    poll_coin-next_due 3_600 60 (90 * second) (210 * second) (100 * second) answers "eth" claimed
      (coin "eth" none) refl refl (omega arith) (omega arith)
