-- ===== src/Api/Coins.antt =====
-- The handlers of api/coins.rs that read or write one coin, on tracked_coins and collection_queue of
-- a reachable database. The text of an interval is a list of code points, the column is a number of
-- seconds; the DTO of an answer is its row. A transaction is one step.
pub mod Rows
pub mod Lifecycle
use crypto_collector.Prelude.{
  ℕ, ◌+◌, String, Bool, true, false, not, ◌&&◌, ◌||◌, Option, some, none, List, [], ◌∷◌, ◌++◌, map,
  any, str_eq, if◌then◌else◌, find_by,
}
use crypto_collector.Prelude.Digits.{codes, trim, is_empty}
use crypto_collector.Api.{ApiError, ApiResult, ◌>>=◌}
use crypto_collector.Api.PollInterval.{parse_live_poll_duration}
use crypto_collector.Collectors.Queue.{Queue, enqueue_queue_item}
use crypto_collector.Collectors.LivePoller.{PolledCoin}

-- A row of tracked_coins.
pub record CoinRow : Type 0 where
  pub coin_id : String
  pub symbol : String
  pub name : String
  pub status : String
  pub registered_at : ℕ
  pub last_collected_at : Option ℕ
  pub error : Option String
  pub live_poll_interval : Option ℕ
  pub last_polled_at : Option ℕ
  pub live_poll_claimed_until : Option ℕ

-- The columns that the live poller reads.
abbrev pub polled : CoinRow → PolledCoin
polled r = record {
  coin_id = r.coin_id;
  symbol = r.symbol;
  status = r.status;
  last_polled_at = r.last_polled_at;
  last_collected_at = r.last_collected_at;
  live_poll_interval = r.live_poll_interval;
  live_poll_claimed_until = r.live_poll_claimed_until;
}

pub record RegisterCoinRequest : Type 0 where
  pub coin_id : String
  pub symbol : String
  pub name : String
  pub live_poll_interval : Option (List ℕ)

-- The three states of the field live_poll_interval of a PATCH.
pub data IntervalPatch : Type 0 where
  absent : IntervalPatch
  null : IntervalPatch
  text : List ℕ → IntervalPatch

pub record UpdateCoinRequest : Type 0 where
  pub status : Option String
  pub error : Option String
  pub live_poll_interval : IntervalPatch

-- What the handlers read of the configuration.
pub record Bounds : Type 0 where
  pub min_secs : ℕ
  pub max_secs : ℕ
  pub global_secs : ℕ

pub record Tables : Type 0 where
  pub coins : List CoinRow
  pub queue : Queue

abbrev pub is_coin : String → CoinRow → Bool
is_coin coin_id r = str_eq r.coin_id coin_id

-- `SELECT … WHERE coin_id = $1`, on the primary key.
abbrev pub select_coin : String → List CoinRow → Option CoinRow
select_coin coin_id coins = find_by (is_coin coin_id) coins

unfoldable pub validate_coin_id : String → ApiResult (Unit {0})
validate_coin_id coin_id =
    if is_empty (trim (codes coin_id))
    then ApiResult.err (ApiError.unprocessable_entity "coin_id must not be empty")
    else ApiResult.ok tt

unfoldable pub validate_coin_status : String → ApiResult (Unit {0})
validate_coin_status status =
    if str_eq status "active" || str_eq status "paused" || str_eq status "error"
    then ApiResult.ok tt
    else ApiResult.err (ApiError.unprocessable_entity "invalid status")

abbrev pub parse_interval : Bounds → List ℕ → ApiResult ℕ
parse_interval b iv = parse_live_poll_duration iv b.min_secs b.max_secs b.global_secs

abbrev pub requested_interval : Bounds → Option (List ℕ) → ApiResult (Option ℕ)
requested_interval b none = ApiResult.ok none
requested_interval b (some iv) = parse_interval b iv >>= (λ secs. ApiResult.ok (some secs))

abbrev pub new_coin : ℕ → RegisterCoinRequest → Option ℕ → CoinRow
new_coin now req interval = record {
  coin_id = req.coin_id;
  symbol = req.symbol;
  name = req.name;
  status = "active";
  registered_at = now;
  last_collected_at = none;
  error = none;
  live_poll_interval = interval;
  last_polled_at = none;
  live_poll_claimed_until = none;
}

-- The three enqueues; the sequence of ids goes on at `next_id`.
unfoldable pub enqueue_initial : ℕ → ℕ → String → Queue → Queue
enqueue_initial now next_id coin_id queue =
    let metadata = enqueue_queue_item now next_id "coin" coin_id "metadata" queue in
    let market = enqueue_queue_item now (next_id + 1) "coin" coin_id "market" metadata.0 in
    (enqueue_queue_item now (next_id + 2) "coin" coin_id "candles" market.0).0

-- 201 and 200.
pub data Registered : Type 0 where
  created : CoinRow → Registered
  existing : CoinRow → Registered

unfoldable pub insert_coin : ℕ → ℕ → RegisterCoinRequest → Option ℕ → Tables → Registered × Tables
insert_coin now next_id req interval t = elim (select_coin req.coin_id t.coins) [
  | some row ↦ (existing row, t)
  | none ↦ (
    created (new_coin now req interval),
    record {
      coins = t.coins ++ new_coin now req interval ∷ [];
      queue = enqueue_initial now next_id req.coin_id t.queue;
    },
  )
]

unfoldable pub register_coin :
    ℕ → ℕ → Bounds → RegisterCoinRequest → Tables → ApiResult (Registered × Tables)
register_coin now next_id b req t = do
  _ ← validate_coin_id req.coin_id
  interval ← requested_interval b req.live_poll_interval
  ApiResult.ok (insert_coin now next_id req interval t)

abbrev pub coin_or_404 : {A : Type 0} → Option A → ApiResult A
coin_or_404 none = ApiResult.err (ApiError.not_found "coin not found")
coin_or_404 (some a) = ApiResult.ok a

unfoldable pub get_coin : String → List CoinRow → ApiResult CoinRow
get_coin coin_id coins = coin_or_404 (select_coin coin_id coins)

-- `COALESCE($2, status)`.
abbrev pub coalesce : {A : Type 0} → Option A → A → A
coalesce none a = a
coalesce (some b) a = b

abbrev pub coalesce_option : {A : Type 0} → Option A → Option A → Option A
coalesce_option none a = a
coalesce_option (some b) a = some b

abbrev pub set_status : UpdateCoinRequest → CoinRow → CoinRow
set_status req r = record r {
  status = coalesce req.status r.status;
  error = coalesce_option req.error r.error;
}

abbrev pub set_interval : Option ℕ → UpdateCoinRequest → CoinRow → CoinRow
set_interval interval req r = record (set_status req r) {
  live_poll_interval = interval;
  last_polled_at = none;
  live_poll_claimed_until = none;
}

-- The UPDATE of a coin, and the row that it returns.
unfoldable pub update_row : (CoinRow → CoinRow) → String → List CoinRow → List CoinRow
update_row f coin_id coins = map (λ r. if is_coin coin_id r then f r else r) coins

unfoldable pub updating :
    (CoinRow → CoinRow) → String → List CoinRow → ApiResult (CoinRow × List CoinRow)
updating f coin_id coins = elim (select_coin coin_id coins) [
  | none ↦ ApiResult.err (ApiError.not_found "coin not found")
  | some row ↦ ApiResult.ok (f row, update_row f coin_id coins)
]

abbrev pub checked_status : Option String → ApiResult (Unit {0})
checked_status none = ApiResult.ok tt
checked_status (some s) = validate_coin_status s

-- The change of the row that a request asks for.
abbrev pub patch : Bounds → UpdateCoinRequest → IntervalPatch → ApiResult (CoinRow → CoinRow)
patch b req absent = ApiResult.ok (set_status req)
patch b req null = ApiResult.ok (set_interval none req)
patch b req (text iv) =
    parse_interval b iv >>= (λ secs. ApiResult.ok (set_interval (some secs) req))

unfoldable pub update_coin :
    Bounds → String → UpdateCoinRequest → List CoinRow → ApiResult (CoinRow × List CoinRow)
update_coin b coin_id req coins = do
  _ ← checked_status req.status
  change ← patch b req req.live_poll_interval
  updating change coin_id coins

abbrev pub pause : CoinRow → CoinRow
pause r = if str_eq r.status "paused" then r else record r { status = "paused" }

-- The soft delete; a coin that is paused already is found by the second query.
unfoldable pub delete_coin : String → List CoinRow → ApiResult (List CoinRow)
delete_coin coin_id coins = elim (select_coin coin_id coins) [
  | none ↦ ApiResult.err (ApiError.not_found "coin not found")
  | some row ↦ ApiResult.ok (update_row pause coin_id coins)
]
