-- ===== src/Api/Candles.antt =====
-- `list_candles` of api/candles.rs: the stored candles of an interval, or else candles aggregated
-- from the rows of a shorter one, with the cursor of a read that its row limit cut off. The rows are
-- those of a reachable database; `coverage` is what `interval_coverage` answers.
pub mod Progress
pub mod Walk
use crypto_collector.Prelude.{
  ℕ, ◌+◌, ◌-◌, ◌*◌, ◌/◌, min, String, Bool, true, false, ◌&&◌, Option, some, none, List, [], ltb,
  leb, str_eq, any, if◌then◌else◌, length, take, last?, filter_by,
}
use crypto_collector.Prelude.Int.{ℤ, pos, pos_part}
use crypto_collector.Prelude.Text.{to_lowercase}
use crypto_collector.Interval.{ApiInterval, secs, from_str, from_api_str}
use crypto_collector.Candles.{
  Decimals, CoinCandle, IntervalCoverage, second, bucket_start, select_source_interval,
  aggregate_candles,
}
use crypto_collector.Api.{ApiError, ApiResult, ◌>>=◌, bad_request_of}
use crypto_collector.Api.Cursor.{
  Base64, Json, validate_limit, decode_cursor, encode_keyset_cursor, paginate, select_after,
}
use crypto_collector.Api.Lists.{
  TrackedCoin, Page, newest_first, ensure_coin_exists, until, since, or_usd,
}

pub record CandleParams : Type 0 where
  pub interval : Option String
  pub vs_currency : Option String
  pub cursor : Option String
  pub limit : Option ℤ
  pub start_at : Option ℕ
  pub end_at : Option ℕ

abbrev pub required : Option String → ApiResult String
required none = ApiResult.err (ApiError.bad_request "'interval' query parameter is required")
required (some interval) = ApiResult.ok interval

unfoldable pub validate_interval : String → ApiResult ApiInterval
validate_interval interval = elim (from_api_str interval) [
  | none ↦ ApiResult.err (ApiError.bad_request "unsupported interval")
  | some i ↦ ApiResult.ok i
]

abbrev pub max_source_rows : ℕ
max_source_rows = 50_000

abbrev pub row_cap_of : ℕ → ℕ → ℕ → ℕ
row_cap_of limit target_secs source_secs =
    min ((limit + 1) * (target_secs / source_secs)) max_source_rows

-- `ts < $4` where it is given.
abbrev pub before : Option ℕ → ℕ → Bool
before none ts = true
before (some bound) ts = ltb ts bound

-- One target interval around the window; an instant before the epoch is no bound.
abbrev pub source_start : ℕ → Option ℕ → Option ℕ
source_start target_secs none = none
source_start target_secs (some s) = some (s - target_secs * second)

abbrev pub source_end : ℕ → Option ℕ → Option ℕ
source_end target_secs none = none
source_end target_secs (some e) = some (e + target_secs * second)

module _ {D : Type 0} where
  abbrev pub candle_ts : CoinCandle D → ℕ
  candle_ts c = c.ts

  -- `WHERE coin_id = $1 AND interval = $2 AND vs_currency = $3`.
  unfoldable pub in_series : String → String → String → CoinCandle D → Bool
  in_series coin_id interval vs_currency c =
      str_eq c.coin_id coin_id && str_eq c.interval interval && str_eq c.vs_currency vs_currency

  unfoldable pub native_query : String → String → String → CandleParams → CoinCandle D → Bool
  native_query coin_id interval vs_currency p c =
      in_series coin_id interval vs_currency c && until p.end_at c.ts && since p.start_at c.ts

  unfoldable pub source_query : String → String → String → ℕ → CandleParams → CoinCandle D → Bool
  source_query coin_id source_interval vs_currency target_secs p c =
      in_series coin_id source_interval vs_currency c
      && since (source_start target_secs p.start_at) c.ts
      && before (source_end target_secs p.end_at) c.ts

  -- The newest rows of the source interval below the cursor.
  unfoldable pub source_rows :
      List (CoinCandle D)
      → String
      → String
      → ℕ
      → String
      → CandleParams
      → Option ℕ
      → ℕ
      → List (CoinCandle D)
  source_rows candles coin_id vs_currency target_secs source_interval p cursor row_cap =
      select_after ⦃order = newest_first⦄ candle_ts
        (source_query coin_id source_interval vs_currency target_secs p) cursor row_cap candles

  -- The two `retain`s on the aggregated candles.
  unfoldable pub retain_window : CandleParams → List (CoinCandle D) → List (CoinCandle D)
  retain_window p agg =
      filter_by (λ c. since p.start_at c.ts) (filter_by (λ c. until p.end_at c.ts) agg)

  module _ ⦃base64 : Base64⦄ ⦃json : Json ℕ⦄ where
    -- `agg.last()` or else the bucket of the oldest source row.
    abbrev pub continuation : ℕ → Option (CoinCandle D) → Option (CoinCandle D) → Option String
    continuation target_secs (some c) oldest = some (encode_keyset_cursor c.ts)
    continuation target_secs none none = none
    continuation target_secs none (some row) =
        some (encode_keyset_cursor (bucket_start row.ts target_secs * second))

    -- The page of the aggregated candles of some source rows, read up to `row_cap`.
    unfoldable pub page_of :
        ℕ → ℕ → ℕ → List (CoinCandle D) → List (CoinCandle D) → Page (CoinCandle D)
    page_of target_secs limit row_cap source_rows agg =
        if leb row_cap (length source_rows) && leb (length agg) limit
        then some (agg, continuation target_secs (last? agg) (last? source_rows))
        else paginate agg (pos limit) candle_ts

    module _ ⦃dec : Decimals D⦄ (now : ℕ) (candles : List (CoinCandle D)) where
      -- The page that `row_cap` rows of the source interval give.
      unfoldable pub aggregated_page :
          String
          → String
          → String
          → ℕ
          → String
          → ℕ
          → CandleParams
          → Option ℕ
          → ℕ
          → Page (CoinCandle D)
      aggregated_page coin_id vs_currency interval target_secs source_interval source_secs p cursor
            limit =
          let row_cap = row_cap_of limit target_secs source_secs in
          let rows =
            source_rows candles coin_id vs_currency target_secs source_interval p cursor row_cap in
          page_of target_secs limit row_cap rows (
            retain_window p
              (aggregate_candles rows target_secs source_secs now source_interval interval))

      -- The choice of the source interval; without one the page is empty.
      unfoldable pub fallback_page :
          List IntervalCoverage
          → String
          → String
          → String
          → ℕ
          → CandleParams
          → Option ℕ
          → ℕ
          → Page (CoinCandle D)
      fallback_page coverage coin_id vs_currency interval target_secs p cursor limit =
          elim (select_source_interval coverage target_secs p.start_at now) [
            | none ↦ some ([], none)
            | some source_interval ↦ elim (from_str source_interval) [
              | none ↦ some ([], none)
              | some i ↦
                  aggregated_page coin_id vs_currency interval target_secs source_interval (secs i)
                    p cursor limit
            ]
          ]

      unfoldable pub list_candles :
          List TrackedCoin
          → List IntervalCoverage
          → String
          → CandleParams
          → ApiResult (Page (CoinCandle D))
      list_candles coins coverage coin_id p = do
        interval ← required p.interval
        requested ← validate_interval interval
        limit ← bad_request_of (validate_limit p.limit)
        cursor ← bad_request_of (decode_cursor p.cursor)
        let vs_currency = to_lowercase (or_usd p.vs_currency)
        _ ← ensure_coin_exists coins coin_id
        ApiResult.ok (
            if any (in_series coin_id interval vs_currency) candles
            then paginate
                (select_after ⦃order = newest_first⦄ candle_ts
                  (native_query coin_id interval vs_currency p) cursor (pos_part limit + 1) candles)
                limit candle_ts
            else fallback_page coverage coin_id vs_currency interval (secs requested) p cursor
                (pos_part limit))
