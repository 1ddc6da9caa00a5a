-- ===== src/Api/Lists/Window.antt =====
-- The default window of the quote list, api/quotes.rs, under a client that follows the cursors.
use native.Mathlib.Decide.{dec_lt}
use crypto_collector.Prelude.{
  ℕ, zero, suc, ◌<◌, ◌≡◌, refl, sym, ap, ◌∙◌, String, Bool, true, false, Option, some, none, List,
  ◌&&◌, arith, length, take, ltb, if◌then◌else◌, filter_by,
}
use crypto_collector.Prelude.Int.{pos}
use crypto_collector.Api.{ApiResult, Fallible}
use crypto_collector.Api.Cursor.{Base64, Json, list_rows, validate_limit, paginate, decode_cursor}
use crypto_collector.Api.Cursor.Order.{
  AreApart, all_rows, all_rows-and, all_rows-IsAscending, take-filter_by,
}
use crypto_collector.Api.Cursor.Walk.{
  walk_pages, walk_pages-agree, walk_pages-all_rows, page_at, page_short, gather, filter_by-true,
}
use crypto_collector.Api.Lists.{
  TrackedCoin, CoinQuote, CoinMarketSnapshot, ListParams, newest_first, list_quotes, is_quote,
  in_window, snapshot_ts, quote_ts, choose_query, ensure_coin_exists, list_coin_market, is_snapshot,
}

-- All that a query matches, the newest first.
abbrev pub snapshot_rows :
    {D : Type 0} → String → ListParams → List (CoinMarketSnapshot D) → List (CoinMarketSnapshot D)
snapshot_rows coin_id p snapshots =
    all_rows ⦃order = newest_first⦄ snapshot_ts (is_snapshot coin_id p) snapshots

abbrev pub quote_rows : {D : Type 0} → String → ListParams → List (CoinQuote D) → List (CoinQuote D)
quote_rows coin_id p quotes = all_rows ⦃order = newest_first⦄ quote_ts (is_quote coin_id p) quotes

-- Those of the trailing 48 hours.
abbrev pub recent_rows :
    {D : Type 0} → ℕ → String → ListParams → List (CoinQuote D) → List (CoinQuote D)
recent_rows now coin_id p quotes = filter_by (in_window now p) (quote_rows coin_id p quotes)

module _ {D : Type 0} ⦃base64 : Base64⦄ ⦃json : Json ℕ⦄ (coins : List TrackedCoin)
    (coin_id : String) (p : ListParams) (m : ℕ)
    (accepted : validate_limit p.limit ≡ Fallible.done (pos (suc m)))
    (exists : ensure_coin_exists coins coin_id ≡ ApiResult.ok tt) where
  -- Walking the snapshots of a coin gives all that match the query, the newest first, if no two
  -- of them have the same instant.
  pub list_coin_market_complete :
      (snapshots : List (CoinMarketSnapshot D)) (fuel : ℕ)
      → AreApart ⦃order = newest_first⦄ snapshot_ts (filter_by (is_snapshot coin_id p) snapshots)
      → length (snapshot_rows coin_id p snapshots) < fuel
      → walk_pages fuel
          (λ c. list_coin_market coins snapshots coin_id (record p { cursor = c }))
          none
        ≡ some (snapshot_rows coin_id p snapshots)
  unfolding list_coin_market is_snapshot
  list_coin_market_complete snapshots fuel apart h =
      walk_pages-all_rows ⦃order = newest_first⦄ snapshot_ts (ensure_coin_exists coins coin_id)
        (is_snapshot coin_id p) snapshots p.limit m accepted exists apart fuel h

  module _ (now : ℕ) (quotes : List (CoinQuote D))
      (apart : AreApart ⦃order = newest_first⦄ quote_ts (filter_by (is_quote coin_id p) quotes))
      (open_start : p.start_at ≡ none) where
    abbrev first_page : ApiResult (Option (List (CoinQuote D) × Option String))
    first_page = list_quotes coins now quotes coin_id (record p { cursor = none })

    -- The first page, from the recent rows.
    first_page_lem :
        first_page
        ≡ ApiResult.ok (
            paginate (take (suc (suc m)) (recent_rows now coin_id p quotes)) (pos (suc m)) quote_ts)
    unfolding list_quotes is_quote decode_cursor
    first_page_lem =
        ap
          (λ start_at.
            list_rows ⦃order = newest_first⦄ quote_ts (ensure_coin_exists coins coin_id)
              (choose_query start_at none (λ q. is_quote coin_id p q && in_window now p q)
                (is_quote coin_id p))
              quotes p.limit none)
          open_start
        ∙ page_at ⦃order = newest_first⦄ quote_ts (ensure_coin_exists coins coin_id)
            (λ q. is_quote coin_id p q && in_window now p q) quotes p.limit m accepted exists none
            none (recent_rows now coin_id p quotes) refl
            (filter_by-true _
              ∙ all_rows-and ⦃order = newest_first⦄ quote_ts (is_quote coin_id p) (in_window now p)
                  quotes)

    abbrev check : ApiResult (Unit {0})
    check = ensure_coin_exists coins coin_id

    -- The reader of the query without a window.
    abbrev keyset : Option String → ApiResult (Option (List (CoinQuote D) × Option String))
    keyset = list_rows ⦃order = newest_first⦄ quote_ts check (is_quote coin_id p) quotes p.limit

    behind_cursor :
        (c : String)
        → list_quotes coins now quotes coin_id (record p { cursor = some c }) ≡ keyset (some c)
    unfolding list_quotes is_quote
    behind_cursor c =
        ap
          (λ start_at.
            list_rows ⦃order = newest_first⦄ quote_ts check
              (choose_query start_at (some c) (λ q. is_quote coin_id p q && in_window now p q)
                (is_quote coin_id p))
              quotes p.limit (some c))
          open_start

    -- Where the recent rows fill a page, the window does not show in it.
    full_page : suc m < length (recent_rows now coin_id p quotes) → first_page ≡ keyset none
    unfolding decode_cursor
    full_page many =
        first_page_lem
        ∙ ap (λ t. ApiResult.ok (paginate t (pos (suc m)) quote_ts))
            (take-filter_by ⦃order = newest_first⦄ quote_ts (in_window now p)
              (λ x y before inside. ground arith) (suc (suc m)) (quote_rows coin_id p quotes)
              (all_rows-IsAscending ⦃order = newest_first⦄ quote_ts (is_quote coin_id p) quotes
                apart)
              (omega arith))
        ∙ sym (
            page_at ⦃order = newest_first⦄ quote_ts check (is_quote coin_id p) quotes p.limit m
              accepted exists none none (quote_rows coin_id p quotes) refl (filter_by-true _))

    abbrev read : Option String → ApiResult (Option (List (CoinQuote D) × Option String))
    read c = list_quotes coins now quotes coin_id (record p { cursor = c })

    -- The rows of the walk, by the test whether the recent rows need a second page.
    abbrev answer : Bool → List (CoinQuote D)
    answer b = if b then quote_rows coin_id p quotes else recent_rows now coin_id p quotes

    -- A walk without `start` stops at the trailing 48 hours only if they fit into one page;
    -- otherwise its cursors lead through all rows that match the query. This holds if no two of the
    -- rows that match have the same instant, as the primary key of the table gives
    -- it: a query is for one coin in one currency.
    pub list_quotes-walk :
        (fuel : ℕ)
        → length (quote_rows coin_id p quotes) < fuel
        → walk_pages fuel (λ c. list_quotes coins now quotes coin_id (record p { cursor = c })) none
          ≡ some (
              if ltb (suc m) (length (recent_rows now coin_id p quotes))
              then quote_rows coin_id p quotes
              else recent_rows now coin_id p quotes)
    unfolding walk_pages
    list_quotes-walk zero h = absurd (omega arith)
    list_quotes-walk (suc fuel) h =
        elim (dec_lt (suc m) (length (recent_rows now coin_id p quotes))) [
          | no few ↦
              let fits : ltb (suc m) (length (recent_rows now coin_id p quotes)) ≡ false =
                ground arith in
              ap (gather (λ c. walk_pages fuel read (some c))) (
                first_page_lem
                ∙ ap ApiResult.ok
                    (page_short quote_ts m (recent_rows now coin_id p quotes) (omega arith)))
              ∙ ap (λ b. some (answer b)) (sym fits)
          | yes many ↦
              let over : ltb (suc m) (length (recent_rows now coin_id p quotes)) ≡ true =
                ground arith in
              walk_pages-agree read keyset behind_cursor (suc fuel) none (full_page many)
              ∙ walk_pages-all_rows ⦃order = newest_first⦄ quote_ts check (is_quote coin_id p)
                  quotes p.limit m accepted exists apart (suc fuel) h
              ∙ ap (λ b. some (answer b)) (sym over)
        ]
