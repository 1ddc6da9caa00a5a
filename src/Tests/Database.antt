-- ===== src/Tests/Database.antt =====
-- Witnesses for the properties of the upserts and of the handlers of single coins.
use crypto_collector.Prelude.{
  String, Elem, ◌≤◌, inl, inr, arith, ℕ, ◌⊎◌, ◌≡◌, refl, true, some, none, List, [], ◌∷◌, ◌++◌,
}
use crypto_collector.Prelude.Digits.{trim, trim_start, trim_end}
use crypto_collector.Candles.{CoinCandle, IntervalCoverage}
use crypto_collector.Database.Coverage.{interval_coverage}
use crypto_collector.Database.Coverage.Spans.{interval_coverage_lem}
use crypto_collector.Tests.Collation.{code_points}
use crypto_collector.Tests.Candles.{candle}
use crypto_collector.Database.Upserts.{
  native_overwrite, rollup_guarded, per_event, silent, Written, same_key, is_rollup, find_key,
  has_key, batched_upsert_coin_candles,
}
use crypto_collector.Database.Upserts.Batches.{
  AreDistinct, store_each, batched_upsert_coin_candles_lem,
}
use crypto_collector.Table.{nat_key}
use crypto_collector.Database.Metadata.{Details, get_metadata}
use crypto_collector.Database.Metadata.History.{History, collected}
use crypto_collector.Database.Metadata.History.AsOf.{shown, get_metadata-collected}
use crypto_collector.Api.Lists.{ensure_coin_exists}
use crypto_collector.Tests.Api.{bitcoin as tracked}
use crypto_collector.Api.{ApiResult}
use crypto_collector.Database.Upserts.Natives.{batched_upsert_coin_candles_keeps_native}
use crypto_collector.Api.Coins.{
  CoinRow, polled, RegisterCoinRequest, null, UpdateCoinRequest, Bounds, Tables, select_coin,
  created, existing, coalesce, validate_coin_id, register_coin, update_coin,
}
use crypto_collector.Api.Coins.Lifecycle.{register_coin_twice, update_coin_lem}
use crypto_collector.Collectors.LivePoller.{is_claimable}

abbrev stored : Written ℕ
stored = record { rows = candle 0 7 ∷ []; events = [] }

abbrev batch : List (CoinCandle ℕ)
batch = candle 0 8 ∷ candle 60 9 ∷ []

batched_upsert_coin_candles_lem_example :
    (AreDistinct batch
      × (batched_upsert_coin_candles batch native_overwrite per_event stored
          ≡ some (store_each batch stored)))
    ⊎ (((pre : List (CoinCandle ℕ)) × (d : CoinCandle ℕ) × (post : List (CoinCandle ℕ)) × (batch
            ≡ pre ++ d ∷ post)
          × (has_key d pre ≡ true))
        × (batched_upsert_coin_candles batch native_overwrite per_event stored ≡ none))
batched_upsert_coin_candles_lem_example = batched_upsert_coin_candles_lem batch stored

batched_upsert_coin_candles_keeps_native_example :
    (after : Written ℕ) × (batched_upsert_coin_candles batch rollup_guarded silent stored
      ≡ some after)
    × (find_key (candle 0 8) after.rows ≡ some (candle 0 7))
unfolding same_key is_rollup
batched_upsert_coin_candles_keeps_native_example =
    batched_upsert_coin_candles_keeps_native batch silent stored (candle 0 8) (candle 0 7)
      ((refl, tt), (tt, tt)) refl refl

abbrev bounds : Bounds
bounds = record { min_secs = 5; max_secs = 3_600; global_secs = 60 }

abbrev register : RegisterCoinRequest
register = record { coin_id = "btc"; symbol = "BTC"; name = "Bitcoin"; live_poll_interval = none }

abbrev empty : Tables
empty = record { coins = []; queue = [] }

register_coin_twice_example :
    (row : CoinRow) × (t' : Tables) × ((register_coin 5 1 bounds register empty
        ≡ ApiResult.ok (created row, t'))
      ⊎ (register_coin 5 1 bounds register empty ≡ ApiResult.ok (existing row, t')))
    × (register_coin 9 4 bounds (record register { name = "Coin" }) t'
        ≡ ApiResult.ok (existing row, t'))
unfolding validate_coin_id trim trim_start trim_end
register_coin_twice_example =
    register_coin_twice 5 1 9 4 bounds register (record register { name = "Coin" }) empty refl refl
      refl refl

abbrev bitcoin : CoinRow
bitcoin = record {
  coin_id = "btc";
  symbol = "BTC";
  name = "Bitcoin";
  status = "active";
  registered_at = 0;
  last_collected_at = some 7;
  error = none;
  live_poll_interval = some 300;
  last_polled_at = some 7;
  live_poll_claimed_until = some 90;
}

abbrev reset : UpdateCoinRequest
reset = record { status = none; error = none; live_poll_interval = null }

update_coin_lem_example :
    (row' : CoinRow) × (coins' : List CoinRow) × (update_coin bounds "btc" reset (bitcoin ∷ [])
      ≡ ApiResult.ok (row', coins'))
    × (select_coin "btc" coins' ≡ some row')
    × (row'.live_poll_interval ≡ none)
    × (row'.status ≡ coalesce reset.status bitcoin.status)
    × (row'.last_polled_at ≡ none)
    × (row'.live_poll_claimed_until ≡ none)
    × (is_claimable 8 60 (polled row') ≡ true)
update_coin_lem_example =
    update_coin_lem bounds "btc" reset (bitcoin ∷ []) bitcoin 8 60 refl refl refl

abbrev described : String → Details ℕ ℕ
described name = record {
  name = name;
  symbol = "BTC";
  categories = some ("layer-1" ∷ []);
  description = none;
  homepage = none;
  links = none;
  contract_addresses = none;
  max_supply = some 21_000_000;
  genesis_date = none;
}

-- The name changes and comes back.
abbrev history : History ℕ ℕ
history =
    (9, record { coin_id = "btc"; details = described "Bitcoin" })
    ∷ (7, record { coin_id = "btc"; details = described "XBT" })
    ∷ (5, record { coin_id = "eth"; details = described "Ether" })
    ∷ (3, record { coin_id = "btc"; details = described "Bitcoin" })
    ∷ []

get_metadata-collected_example :
    shown (get_metadata (tracked ∷ []) (collected history) "btc" (some 8)) ≡ some (described "XBT")
unfolding ensure_coin_exists
get_metadata-collected_example = get_metadata-collected (tracked ∷ []) "btc" (some 8) history refl (
  (omega arith, (omega arith, (omega arith, tt))),
  ((omega arith, (omega arith, tt)), ((omega arith, tt), (tt, tt))),
)

interval_coverage_lem_example :
    (s : IntervalCoverage) × Elem s
      (interval_coverage batch (candle 60 9).coin_id (candle 60 9).vs_currency)
    × (s.interval ≡ (candle 60 9).interval)
    × (s.earliest ≤ (candle 60 9).ts)
    × ((candle 60 9).ts ≤ s.latest)
interval_coverage_lem_example =
    interval_coverage_lem batch (candle 60 9).coin_id (candle 60 9).vs_currency (candle 60 9)
      (inr (inl refl)) refl
