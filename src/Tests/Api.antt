-- ===== src/Tests/Api.antt =====
-- Witnesses for the properties of the list endpoints, with texts as their own base64 and with tallies
-- as JSON.
use crypto_collector.Prelude.{
  ℕ, zero, suc, ◌*◌, ◌≤◌, All, String, some, none, List, [], ◌∷◌, ◌≡◌, ◌↔◌, refl, sort_by, arith,
  ltb,
}
use crypto_collector.Prelude.Int.{pos}
use crypto_collector.Prelude.Digits.{codes}
use crypto_collector.Candles.{CoinCandle, second, bucket_start, emit, aggregate_candles}
use crypto_collector.Tests.Candles.{whole, candle}
use crypto_collector.Interval.{h1, from_api_str, from_str, is_api_facing}
use crypto_collector.Api.{ApiResult}
use crypto_collector.Api.Cursor.{
  Base64, Json, validate_limit, list_rows, select_after, encode_keyset_cursor,
}
use crypto_collector.Api.Cursor.Walk.{walk_pages, walk_pages-all_rows}
use crypto_collector.Api.Lists.{
  TrackedCoin, CoinQuote, ListParams, newest_first, list_quotes, is_quote, ensure_coin_exists,
}
use crypto_collector.Prelude.Text.{to_lowercase}
use crypto_collector.Api.Lists.Window.{list_quotes-walk}
use crypto_collector.Api.Candles.{
  CandleParams, validate_interval, list_candles, page_of, aggregated_page, source_rows, in_series,
  source_query, retain_window,
}
use crypto_collector.Api.Candles.Progress.{PageBelow, aggregated_page-PageBelow}
use crypto_collector.Api.Candles.Walk.{list_candles-walk}
use crypto_collector.Candles.Below.{IsBelow}
use crypto_collector.Api.PollInterval.{
  HmsResult, parse_hms, duration_to_string, parse_live_poll_duration, normalize_pg_interval,
  pg_interval_to_secs,
}
use crypto_collector.Api.PollInterval.RoundTrip.{
  parse_hms-duration_to_string, parse_live_poll_duration_lem,
}
use crypto_collector.Api.PollInterval.Postgres.{pg_text, pg_interval_to_secs-pg_text}

instance abbrev pub plain : Base64
plain = record { encode = λ s. s; decode = λ s. some s; decode-encode = λ s. refl }

abbrev pub tally : ℕ → String
tally zero = ""
tally (suc n) = String.◌∷◌ "a" (tally n)

abbrev pub count : String → ℕ
count String.[] = 0
count (String.◌∷◌ c s) = suc (count s)

pub count-tally : (n : ℕ) → some (count (tally n)) ≡ some n
count-tally zero = refl
count-tally (suc n) = ground (arith, count-tally n)

instance abbrev pub tallies : Json ℕ
tallies = record {
  to_string = tally;
  from_slice = λ s. some (count s);
  from_slice-to_string = count-tally;
}

abbrev rows : List ℕ
rows = 3 ∷ 9 ∷ 5 ∷ 1 ∷ 7 ∷ []

abbrev row_key : ℕ → ℕ
row_key n = n

walk_pages-all_rows_example :
    walk_pages 6
      (list_rows ⦃order = newest_first⦄ row_key
        (ApiResult.ok tt)
        (λ n. ltb n 8)
        rows
        (some (pos 2)))
      none
    ≡ some (7 ∷ 5 ∷ 3 ∷ 1 ∷ [])
unfolding sort_by validate_limit
walk_pages-all_rows_example =
    walk_pages-all_rows ⦃order = newest_first⦄ row_key (ApiResult.ok tt) (λ n. ltb n 8) rows
      (some (pos 2)) 1 refl refl
      ((refl, (refl, (refl, tt))), ((refl, (refl, tt)), ((refl, tt), (tt, tt)))) 6 (omega arith)

abbrev pub bitcoin : TrackedCoin
bitcoin = record {
  coin_id = "btc";
  symbol = "BTC";
  name = "Bitcoin";
  status = "active";
  registered_at = 0;
  last_collected_at = none;
  error = none;
  live_poll_interval = none;
}

abbrev quote : ℕ → CoinQuote ℕ
quote ts = record {
  coin_id = "btc";
  vs_currency = "usd";
  ts = ts * second;
  price = 7;
  source = "kraken";
}

abbrev all_of_them : ListParams
all_of_them = record {
  vs_currency = some "usd";
  cursor = none;
  limit = some (pos 1);
  start_at = none;
  end_at = none;
}

abbrev quotes : List (CoinQuote ℕ)
quotes =
    quote 100
    ∷ record (quote 200_000) { vs_currency = "eur" }
    ∷ record (quote 200_000) { coin_id = "eth" }
    ∷ quote 200_000
    ∷ []

list_quotes-walk_example :
    walk_pages 3
      (λ c.
        list_quotes
          (bitcoin ∷ [])
          (200_001 * second)
          quotes
          "btc"
          (record all_of_them { cursor = c }))
      none
    ≡ some (quote 200_000 ∷ [])
unfolding sort_by validate_limit ensure_coin_exists is_quote to_lowercase
list_quotes-walk_example =
    list_quotes-walk (bitcoin ∷ []) "btc" all_of_them 0 refl refl (200_001 * second) quotes
      ((refl, tt), (tt, tt)) refl 3 (omega arith)

abbrev no_bounds : CandleParams
no_bounds = record {
  interval = some "1h";
  vs_currency = some "usd";
  cursor = none;
  limit = some (pos 1);
  start_at = none;
  end_at = none;
}

abbrev quarter : ℕ → CoinCandle ℕ
quarter ts = record (candle ts 7) { interval = "15m" }

aggregated_page-PageBelow_example : PageBelow (3_600 * second) (
    aggregated_page
      (9_000 * second)
      (quarter 0 ∷ quarter 3_600 ∷ [])
      "btc"
      "usd"
      "1h"
      3_600
      "15m"
      900
      no_bounds
      (some (3_600 * second))
      1)
aggregated_page-PageBelow_example =
    aggregated_page-PageBelow (9_000 * second) (quarter 0 ∷ quarter 3_600 ∷ []) "btc" "usd" "1h"
      3_600 "15m" 900 no_bounds (3_600 * second) 1

-- Three rows of each of two hours, and the four rows of a whole one.
abbrev hours : List (CoinCandle ℕ)
hours =
    quarter 8_100
    ∷ quarter 9_000
    ∷ quarter 9_900
    ∷ quarter 4_500
    ∷ quarter 5_400
    ∷ quarter 6_300
    ∷ quarter 0
    ∷ quarter 900
    ∷ quarter 1_800
    ∷ quarter 2_700
    ∷ []

-- The first hour is complete, but the first page is empty and its cursor passes that hour over.
skipped_hour :
    aggregated_page (20_000 * second) hours "btc" "usd" "1h" 3_600 "15m" 900 no_bounds none 1
    ≡ some ([], some (encode_keyset_cursor {K = ℕ} 0))
unfolding aggregated_page page_of source_rows select_after sort_by in_series source_query
    retain_window aggregate_candles bucket_start emit
skipped_hour = refl

-- Two stored candles of an hour, some nanoseconds apart.
abbrev stored_hours : List (CoinCandle ℕ)
stored_hours =
    record (candle 0 7) { interval = "1h"; ts = 2 }
    ∷ record (candle 0 7) { interval = "1h"; ts = 4 }
    ∷ []

list_candles-walk_example :
    (rows : List (CoinCandle ℕ)) × (walk_pages 6
        (λ c. list_candles 9 stored_hours (bitcoin ∷ []) [] "btc" (record no_bounds { cursor = c }))
        (some (encode_keyset_cursor {K = ℕ} 5))
      ≡ some rows)
    × All (IsBelow 5) rows
unfolding validate_interval validate_limit ensure_coin_exists from_api_str from_str is_api_facing
list_candles-walk_example =
    list_candles-walk 9 stored_hours (bitcoin ∷ []) [] "btc" "1h" h1 no_bounds 0 refl refl refl refl
      5 6 (omega arith)

parse_hms-duration_to_string_example : parse_hms (duration_to_string 5_415) ≡ HmsResult.ok 5_415
parse_hms-duration_to_string_example = parse_hms-duration_to_string 5_415 (omega arith)

parse_live_poll_duration_lem_example :
    (parse_live_poll_duration (codes "2h") 60 86_400 300 ≡ ApiResult.ok 7_200) ↔ (
      (parse_hms (codes "2h") ≡ HmsResult.ok 7_200)
      × (60 ≤ 7_200)
      × (300 ≤ 7_200)
      × (7_200 ≤ 86_400))
parse_live_poll_duration_lem_example = parse_live_poll_duration_lem (codes "2h") 60 86_400 300 7_200

pg_interval_to_secs-pg_text_example :
    (normalize_pg_interval (pg_text 5_415) ≡ some (duration_to_string 5_415))
    × (pg_interval_to_secs (pg_text 5_415) ≡ some 5_415)
pg_interval_to_secs-pg_text_example = pg_interval_to_secs-pg_text 5_415 (omega arith)
