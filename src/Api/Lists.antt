-- ===== src/Api/Lists.antt =====
-- The list endpoints of api/coins.rs, quotes.rs, coin_market.rs, candles.rs (its stored candles) and
-- cycle_overlay.rs (its table), on the tables of a reachable database. An instant is a number of
-- nanoseconds; a failed read is not modelled.
pub mod Window
use crypto_collector.Prelude.{
  ℕ, ◌+◌, ◌-◌, ◌*◌, String, Bool, true, false, not, ◌&&◌, ◌||◌, Option, some, none, List, ◌≡◌, ltb,
  leb, str_eq, any, if◌then◌else◌, arith,
}
use crypto_collector.Prelude.Int.{ℤ}
use crypto_collector.Prelude.Text.{to_lowercase}
use crypto_collector.Candles.{second, CoinCandle}
use crypto_collector.Api.{ApiError, ApiResult}
use crypto_collector.Api.Cursor.{Base64, Json, KeyOrder, list_rows}

-- models/coin.rs
pub record TrackedCoin : Type 0 where
  pub coin_id : String
  pub symbol : String
  pub name : String
  pub status : String
  pub registered_at : ℕ
  pub last_collected_at : Option ℕ
  pub error : Option String
  pub live_poll_interval : Option String

pub record CoinMarketSnapshot (D : Type 0) : Type 0 where
  pub coin_id : String
  pub vs_currency : String
  pub ts : ℕ
  pub price : D
  pub market_cap : Option D
  pub fully_diluted_valuation : Option D
  pub circulating_supply : Option D
  pub total_supply : Option D
  pub volume_24h : Option D
  pub source : String

-- models/quote.rs
pub record CoinQuote (D : Type 0) : Type 0 where
  pub coin_id : String
  pub vs_currency : String
  pub ts : ℕ
  pub price : D
  pub source : String

pub gtb_asym : (a b : ℕ) → ltb b a ≡ true → ltb a b ≡ false
gtb_asym a b h = ground arith

pub gtb_trans : (a b c : ℕ) → ltb b a ≡ true → ltb c b ≡ true → ltb c a ≡ true
gtb_trans a b c h k = ground arith

pub not_gtb_trans : (a b c : ℕ) → ltb a b ≡ false → ltb b c ≡ false → ltb a c ≡ false
not_gtb_trans a b c h k = ground arith

-- The newest row first.
abbrev pub newest_first : KeyOrder ℕ
newest_first = record {
  lt = λ a b. ltb b a;
  lt_asym = gtb_asym;
  lt_trans = gtb_trans;
  not_lt_trans = not_gtb_trans;
}

-- What a list handler reads of its query string.
pub record ListParams : Type 0 where
  pub vs_currency : Option String
  pub cursor : Option String
  pub limit : Option ℤ
  pub start_at : Option ℕ
  pub end_at : Option ℕ

unfoldable pub ensure_coin_exists : List TrackedCoin → String → ApiResult (Unit {0})
ensure_coin_exists coins coin_id =
    if any (λ c. str_eq c.coin_id coin_id) coins
    then ApiResult.ok tt
    else ApiResult.err (ApiError.not_found coin_id)

-- `($3 IS NULL OR ts <= $3)` and `($4 IS NULL OR ts >= $4)`.
abbrev pub until : Option ℕ → ℕ → Bool
until none ts = true
until (some end_at) ts = leb ts end_at

abbrev pub since : Option ℕ → ℕ → Bool
since none ts = true
since (some start_at) ts = leb start_at ts

abbrev pub or_usd : Option String → String
or_usd none = "usd"
or_usd (some c) = c

-- 48 hours.
abbrev pub default_window : ℕ
default_window = 172_800 * second

-- `COALESCE(end, now()) - interval '48 hours'`.
abbrev pub window_start : Option ℕ → ℕ → ℕ
window_start none now = now - default_window
window_start (some end_at) now = end_at - default_window

-- None is the panic of the paginator.
abbrev pub Page : Type 0 → Type 0
Page R = Option (List R × Option String)

unfoldable pub list_coins :
    ⦃base64 : Base64⦄ ⦃json : Json String⦄ ⦃collation : KeyOrder String⦄
    → List TrackedCoin
    → Option ℤ
    → Option String
    → ApiResult (Page TrackedCoin)
list_coins coins limit cursor =
    list_rows (λ (c : TrackedCoin). c.coin_id) (ApiResult.ok tt) (λ c. true) coins limit cursor

module _ {D : Type 0} where
  abbrev pub snapshot_ts : CoinMarketSnapshot D → ℕ
  snapshot_ts s = s.ts

  abbrev pub quote_ts : CoinQuote D → ℕ
  quote_ts q = q.ts

  unfoldable pub is_snapshot : String → ListParams → CoinMarketSnapshot D → Bool
  is_snapshot coin_id p s =
      str_eq s.coin_id coin_id
      && str_eq s.vs_currency (to_lowercase (or_usd p.vs_currency))
      && until p.end_at s.ts
      && since p.start_at s.ts

  -- The currency of a quote is compared as it is given.
  unfoldable pub is_quote : String → ListParams → CoinQuote D → Bool
  is_quote coin_id p q =
      str_eq q.coin_id coin_id
      && str_eq q.vs_currency (or_usd p.vs_currency)
      && until p.end_at q.ts
      && since p.start_at q.ts

  abbrev pub in_window : ℕ → ListParams → CoinQuote D → Bool
  in_window now p q = leb (window_start p.end_at now) q.ts

  -- The query of the default window if `start.is_none() && cursor_ts.is_none()`.
  abbrev pub choose_query :
      Option ℕ → Option String → (window keyset : CoinQuote D → Bool) → CoinQuote D → Bool
  choose_query none none window keyset = window
  choose_query none (some cursor) window keyset = keyset
  choose_query (some start_at) cursor window keyset = keyset

  abbrev pub quote_query : ℕ → String → ListParams → CoinQuote D → Bool
  quote_query now coin_id p =
      choose_query p.start_at p.cursor (λ q. is_quote coin_id p q && in_window now p q)
        (is_quote coin_id p)

  module _ ⦃base64 : Base64⦄ ⦃json : Json ℕ⦄ (coins : List TrackedCoin) where
    unfoldable pub list_coin_market :
        List (CoinMarketSnapshot D) → String → ListParams → ApiResult (Page (CoinMarketSnapshot D))
    list_coin_market snapshots coin_id p =
        list_rows ⦃order = newest_first⦄ snapshot_ts (ensure_coin_exists coins coin_id)
          (is_snapshot coin_id p) snapshots p.limit p.cursor

    unfoldable pub list_quotes :
        ℕ → List (CoinQuote D) → String → ListParams → ApiResult (Page (CoinQuote D))
    list_quotes now quotes coin_id p =
        list_rows ⦃order = newest_first⦄ quote_ts (ensure_coin_exists coins coin_id)
          (quote_query now coin_id p) quotes p.limit p.cursor
