-- ===== src/Collectors/LivePoller.antt =====
-- The poller of live quotes, collectors/live_poller.rs, on the tables tracked_coins and coin_quotes.
-- An instant is a number of nanoseconds, an interval a number of seconds that is not negative. What
-- the providers, the pacer and the database answer for a coin is one record.
pub mod Due
pub mod Claims
pub mod Fence
use crypto_collector.Prelude.{
  ℕ, ◌+◌, ◌*◌, String, Bool, true, false, not, ◌&&◌, ◌||◌, Option, some, none, List, [], ◌∷◌, map,
  leb, ltb, ◌==◌, str_eq, any, if◌then◌else◌, take, filter_by, sort_by,
}
use crypto_collector.Candles.{second}
use crypto_collector.Pacer.{AcquireSlotError}
use crypto_collector.Attempts.{Capability}
use crypto_collector.Alarm.Health.{HealthRegistry, record_upsert_failure, record_upsert_success}
use crypto_collector.Providers.{
  ProviderError, Result, Provider, no_capable_provider, pacer, is_transient, chain_try, poke,
}

-- The columns of tracked_coins that polling reads and writes.
pub record PolledCoin : Type 0 where
  pub coin_id : String
  pub symbol : String
  pub status : String
  pub last_polled_at : Option ℕ
  pub last_collected_at : Option ℕ
  pub live_poll_interval : Option ℕ
  pub live_poll_claimed_until : Option ℕ

abbrev pub interval_of : ℕ → Option ℕ → ℕ
interval_of global_interval_secs none = global_interval_secs
interval_of global_interval_secs (some secs) = secs

abbrev pub in_flight : ℕ → Option ℕ → Bool
in_flight now none = false
in_flight now (some until) = ltb now until

abbrev pub is_overdue : ℕ → ℕ → Option ℕ → Bool
is_overdue now interval_secs none = true
is_overdue now interval_secs (some t) = leb (t + interval_secs * second) now

unfoldable pub is_market_due : Option ℕ → Option ℕ → ℕ → Option ℕ → ℕ → Bool
is_market_due last_polled_at live_poll_claimed_until global_interval_secs per_market_interval_secs
      now =
    if in_flight now live_poll_claimed_until
    then false
    else is_overdue now (interval_of global_interval_secs per_market_interval_secs) last_polled_at

unfoldable pub pacer_should_skip : AcquireSlotError → Bool
pacer_should_skip (AcquireSlotError.cooldown provider until) = true
pacer_should_skip (AcquireSlotError.credit_exhausted provider) = true
pacer_should_skip _ = false

-- `last_polled_at IS NULL OR last_polled_at + COALESCE(live_poll_interval, $1) <= now()`.
abbrev pub polled_out : ℕ → ℕ → PolledCoin → Bool
polled_out now global_interval_secs r = elim r.last_polled_at [
  | none ↦ true
  | some t ↦ leb (t + interval_of global_interval_secs r.live_poll_interval * second) now
]

-- `live_poll_claimed_until IS NULL OR live_poll_claimed_until <= now()`.
abbrev pub unclaimed : ℕ → PolledCoin → Bool
unclaimed now r = elim r.live_poll_claimed_until [ none ↦ true | some until ↦ leb until now ]

-- The WHERE clause of the claim.
unfoldable pub is_claimable : ℕ → ℕ → PolledCoin → Bool
is_claimable now global_interval_secs r =
    str_eq r.status "active" && polled_out now global_interval_secs r && unclaimed now r

-- `ORDER BY last_polled_at ASC NULLS FIRST`.
abbrev pub polled_before : Option ℕ → Option ℕ → Bool
polled_before none b = true
polled_before (some a) none = false
polled_before (some a) (some b) = leb a b

abbrev pub most_overdue : PolledCoin → PolledCoin → Bool
most_overdue a b = polled_before a.last_polled_at b.last_polled_at

-- The CTE: `locked` are the rows that other transactions hold, which SKIP LOCKED passes over.
unfoldable pub select_due : ℕ → ℕ → ℕ → (PolledCoin → Bool) → List PolledCoin → List PolledCoin
select_due now global_interval_secs batch_limit locked rows = take batch_limit (
    sort_by most_overdue
      (filter_by (λ r. is_claimable now global_interval_secs r && not (locked r)) rows))

abbrev pub has_id : List PolledCoin → String → Bool
has_id claimed coin_id = any (λ c. str_eq c.coin_id coin_id) claimed

abbrev pub with_marker : ℕ → PolledCoin → PolledCoin
with_marker until r = record r { live_poll_claimed_until = some until }

-- The claimed rows, in the order of the CTE, and the table.
unfoldable pub claim_due_coins :
    ℕ → ℕ → ℕ → ℕ → (PolledCoin → Bool) → List PolledCoin → List PolledCoin × List PolledCoin
claim_due_coins now global_interval_secs claim_ttl_secs batch_limit locked rows =
    let claimed = select_due now global_interval_secs batch_limit locked rows in
    let until = now + claim_ttl_secs * second in
    (
      map (with_marker until) claimed,
      map (λ r. if has_id claimed r.coin_id then with_marker until r else r) rows,
    )

-- `UPDATE … WHERE coin_id = $1`.
abbrev pub update_coin : (PolledCoin → PolledCoin) → String → List PolledCoin → List PolledCoin
update_coin f coin_id rows = map (λ r. if str_eq r.coin_id coin_id then f r else r) rows

unfoldable pub polled_at : ℕ → PolledCoin → PolledCoin
polled_at now r = record r {
  last_polled_at = some now;
  last_collected_at = some now;
  live_poll_claimed_until = none;
}

unfoldable pub cleared : PolledCoin → PolledCoin
cleared r = record r { live_poll_claimed_until = none }

unfoldable pub deferred : ℕ → ℕ → PolledCoin → PolledCoin
deferred now widened_interval_secs r = with_marker (now + widened_interval_secs * second) r

unfoldable pub mark_coin_poll_success : ℕ → String → List PolledCoin → List PolledCoin
mark_coin_poll_success now coin_id rows = update_coin (polled_at now) coin_id rows

unfoldable pub clear_coin_poll_marker : String → List PolledCoin → List PolledCoin
clear_coin_poll_marker coin_id rows = update_coin cleared coin_id rows

unfoldable pub defer_coin_poll : ℕ → String → ℕ → List PolledCoin → List PolledCoin
defer_coin_poll now coin_id widened_interval_secs rows =
    update_coin (deferred now widened_interval_secs) coin_id rows

-- What the loop does with the answer of a chain: which statement settles the coin.
pub data Settlement : Type 0 where
  success : Settlement
  clear : Settlement
  defer : Settlement

module _ {Q : Type 0} where
  -- `stored` is the answer of the upsert of the quote.
  unfoldable pub settlement : Result Q → (stored : Bool) → Settlement
  settlement (Result.ok quote) stored = if stored then success else clear
  settlement (Result.err (no_capable_provider capability)) stored = defer
  settlement (Result.err (pacer e)) stored = if pacer_should_skip e then clear else clear
  settlement (Result.err e) stored = if is_transient e then clear else defer

  -- The upsert alone pokes the registry here.
  unfoldable pub observe_upsert :
      Result Q → (stored : Bool) → Option HealthRegistry → Option HealthRegistry
  observe_upsert (Result.ok quote) true registry = poke record_upsert_success registry
  observe_upsert (Result.ok quote) false registry = poke record_upsert_failure registry
  observe_upsert (Result.err e) stored registry = registry

-- The statement of a settlement, on the row of its coin.
unfoldable pub settled : ℕ → ℕ → Settlement → PolledCoin → PolledCoin
settled now max_interval_secs success r = polled_at now r
settled now max_interval_secs clear r = cleared r
settled now max_interval_secs defer r = deferred now max_interval_secs r

unfoldable pub settle : ℕ → ℕ → Settlement → String → List PolledCoin → List PolledCoin
settle now max_interval_secs success coin_id rows = mark_coin_poll_success now coin_id rows
settle now max_interval_secs clear coin_id rows = clear_coin_poll_marker coin_id rows
settle now max_interval_secs defer coin_id rows = defer_coin_poll now coin_id max_interval_secs rows

-- What the outside answers when the loop comes to a coin.
pub record Polling (Q : Type 0) : Type 0 where
  -- The shutdown signal before the coin.
  pub shutdown : Bool
  pub chain : List (Provider Q)
  -- The clock where the chain ends.
  pub at : ℕ
  -- Whether the upsert and the statement that settles the coin are reached.
  pub stored : Bool
  pub reached : Bool
  -- The clock of that statement.
  pub settled_at : ℕ

pub record Polled (Q : Type 0) : Type 0 where
  pub rows : List PolledCoin
  -- The quotes that are stored, by coin, in order.
  pub quotes : List (String × Q)
  pub registry : Option HealthRegistry

module _ {Q : Type 0} (max_interval_secs : ℕ) (answers : String → Polling Q) where
  abbrev pub store_quote :
      String → Result Q → (stored : Bool) → List (String × Q) → List (String × Q)
  store_quote coin_id (Result.ok quote) true quotes = (coin_id, quote) ∷ quotes
  store_quote coin_id (Result.ok quote) false quotes = quotes
  store_quote coin_id (Result.err e) stored quotes = quotes

  unfoldable pub poll_coin : String → Polled Q → Polled Q
  poll_coin coin_id s =
      let p = answers coin_id in
      let (fetch_result, registry) = chain_try Capability.spot p.at p.chain s.registry in
      record {
        rows =
            if p.reached
            then settle p.settled_at max_interval_secs (settlement fetch_result p.stored) coin_id
                s.rows
            else s.rows;
        quotes = store_quote coin_id fetch_result p.stored s.quotes;
        registry = observe_upsert fetch_result p.stored registry;
      }

  -- The loop over the claimed coins.
  unfoldable pub poll_coins : List PolledCoin → Polled Q → Polled Q
  poll_coins [] s = s
  poll_coins (c ∷ coins) s =
      let rest = poll_coins coins (poll_coin c.coin_id s) in
      if (answers c.coin_id).shutdown then s else rest

  -- A claim that is not reached ends the cycle; the next one tries again.
  unfoldable pub poll_cycle : Bool → ℕ → ℕ → ℕ → ℕ → (PolledCoin → Bool) → Polled Q → Polled Q
  poll_cycle claim_reached now global_interval_secs claim_ttl_secs claim_batch_limit locked s =
      let (coins, rows) =
        claim_due_coins now global_interval_secs claim_ttl_secs claim_batch_limit locked s.rows in
      if claim_reached then poll_coins coins (record s { rows = rows }) else s
