-- ===== src/Api/Candles/Progress.antt =====
-- The cursors of the aggregated candles, api/candles.rs, move back in time.
use crypto_collector.Prelude.{
  ℕ, ◌+◌, ◌*◌, ◌/◌, ◌<◌, min, ◌≡◌, refl, String, Bool, true, ◌&&◌, Option, some, none, List, arith,
  leb, length, take, last?, filter_by, sort_by, All, All-map, All-take, All-last, All-sort_by,
  All-filter_by, filter_by-holds, if_of_both,
}
use crypto_collector.Prelude.Int.{pos, ltb_ℤ}
use crypto_collector.Candles.{Decimals, CoinCandle, second, bucket_start, aggregate_candles}
use crypto_collector.Candles.Below.{IsBelow, bucket_start-le, aggregate_candles-IsBelow}
use crypto_collector.Api.Cursor.{
  Base64, Json, encode_keyset_cursor, paginate, select_after, is_after, in_order, cursor_of,
}
use crypto_collector.Api.Lists.{Page, newest_first, since, until}
use crypto_collector.Api.Candles.{
  CandleParams, candle_ts, source_query, retain_window, continuation, page_of, aggregated_page,
  source_rows, max_source_rows,
}

-- What a cursor encodes.
abbrev pub LeadsBelow : ⦃base64 : Base64⦄ ⦃json : Json ℕ⦄ → ℕ → Option String → Type 0
LeadsBelow bound none = Unit {0}
LeadsBelow bound (some c) = (k : ℕ) × (c ≡ encode_keyset_cursor k) × (k < bound)

module _ {D : Type 0} ⦃base64 : Base64⦄ ⦃json : Json ℕ⦄ (bound : ℕ) where
  abbrev pub PageBelow : Page (CoinCandle D) → Type 0
  PageBelow none = Unit {0}
  PageBelow (some (items, next)) = All (IsBelow bound) items × LeadsBelow bound next

  pub paginate-PageBelow :
      (items : List (CoinCandle D)) (limit : ℕ)
      → All (IsBelow bound) items
      → PageBelow (paginate items (pos limit) candle_ts)
  unfolding paginate
  paginate-PageBelow items limit a =
      if_of_both PageBelow (ltb_ℤ (pos limit) (pos (length items)))
        (elim (cursor_of candle_ts (last? (take limit items))) [
          | none ↦ none
          | some c ↦ some (take limit items, some c)
        ])
        (some (items, none)) (cut (last? (take limit items)) refl) (a, tt)
    where
      cut :
          (o : Option (CoinCandle D))
          → last? (take limit items) ≡ o
          → PageBelow (elim (cursor_of candle_ts o) [
            | none ↦ none
            | some c ↦ some (take limit items, some c)
          ])
      cut none e = tt
      cut (some c) e = (
        All-take (IsBelow bound) limit items a,
        (
          c.ts,
          refl,
          All-last (IsBelow bound) (take limit items) (All-take (IsBelow bound) limit items a) e,
        ),
      )

  continuation-LeadsBelow :
      (target_secs : ℕ) (newest oldest : Option (CoinCandle D))
      → ((c : CoinCandle D) → newest ≡ some c → IsBelow bound c)
      → ((c : CoinCandle D) → oldest ≡ some c → IsBelow bound c)
      → LeadsBelow bound (continuation target_secs newest oldest)
  continuation-LeadsBelow target_secs (some c) oldest h k = (c.ts, refl, h c refl)
  continuation-LeadsBelow target_secs none none h k = tt
  continuation-LeadsBelow target_secs none (some row) h k = (
    bucket_start row.ts target_secs * second,
    refl,
    omega (arith, bucket_start-le row.ts target_secs, k row refl),
  )

  page_of-PageBelow :
      (target_secs limit row_cap : ℕ) (source agg : List (CoinCandle D))
      → All (IsBelow bound) source
      → All (IsBelow bound) agg
      → PageBelow (page_of target_secs limit row_cap source agg)
  unfolding page_of
  page_of-PageBelow target_secs limit row_cap source agg a b =
      if_of_both PageBelow (leb row_cap (length source) && leb (length agg) limit)
        (some (agg, continuation target_secs (last? agg) (last? source)))
        (paginate agg (pos limit) candle_ts)
        (
          b,
          continuation-LeadsBelow target_secs (last? agg) (last? source)
              (λ c e. All-last (IsBelow bound) agg b e)
              (λ c e. All-last (IsBelow bound) source a e),
        )
        (paginate-PageBelow agg limit b)

-- What a read behind a cursor gives lies before it.
pub select_after-IsBelow :
    {D : Type 0}
    → (keep : CoinCandle D → Bool) (cursor n : ℕ) (candles : List (CoinCandle D))
    → All
        (IsBelow cursor)
        (select_after ⦃order = newest_first⦄ candle_ts keep (some cursor) n candles)
unfolding select_after
select_after-IsBelow {D} keep cursor n candles =
    let query =
      λ (c : CoinCandle D). keep c && is_after ⦃order = newest_first⦄ candle_ts (some cursor) c in
    All-take (IsBelow cursor) n
      (sort_by (in_order ⦃order = newest_first⦄ candle_ts) (filter_by query candles))
      (All-sort_by (IsBelow cursor) (in_order ⦃order = newest_first⦄ candle_ts)
        (filter_by query candles)
        (All-map (λ c. query c ≡ true) (IsBelow cursor) (λ c h. ground arith)
          (filter_by query candles) (filter_by-holds query candles)))

module _ {D : Type 0} ⦃base64 : Base64⦄ ⦃json : Json ℕ⦄ ⦃dec : Decimals D⦄ where
  -- Every page of aggregated candles that is read behind a cursor holds only candles before it, and
  -- the cursor it gives, whether the read was cut off or not and whether any bucket came out, lies
  -- strictly before it: a client that follows the cursors makes progress.
  pub aggregated_page-PageBelow :
      (now : ℕ) (candles : List (CoinCandle D)) (coin_id vs_currency interval : String)
      (target_secs : ℕ) (source_interval : String) (source_secs : ℕ) (p : CandleParams)
      (cursor limit : ℕ)
      → PageBelow cursor (
          aggregated_page now candles coin_id vs_currency interval target_secs source_interval
            source_secs p
            (some cursor)
            limit)
  unfolding aggregated_page source_rows retain_window
  aggregated_page-PageBelow now candles coin_id vs_currency interval target_secs source_interval
        source_secs p cursor limit =
      let row_cap = min ((limit + 1) * (target_secs / source_secs)) max_source_rows in
      let rows =
        source_rows candles coin_id vs_currency target_secs source_interval p (some cursor)
          row_cap in
      let agg = aggregate_candles rows target_secs source_secs now source_interval interval in
      let below : All (IsBelow cursor) rows =
        select_after-IsBelow (source_query coin_id source_interval vs_currency target_secs p) cursor
          row_cap candles in
      page_of-PageBelow cursor target_secs limit row_cap rows (retain_window p agg) below (
        All-filter_by (IsBelow cursor) (λ c. since p.start_at c.ts)
          (filter_by (λ c. until p.end_at c.ts) agg)
          (All-filter_by (IsBelow cursor) (λ c. until p.end_at c.ts) agg
            (aggregate_candles-IsBelow cursor rows target_secs source_secs now source_interval
              interval below)))
