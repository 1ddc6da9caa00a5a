-- ===== src/Api/Candles/Walk.antt =====
-- A client that follows the cursors of `list_candles` (api/candles.rs).
use crypto_collector.Prelude.{
  ℕ, zero, suc, ◌+◌, ◌<◌, if◌then◌else◌, ◌≡◌, refl, subst, String, Bool, ◌&&◌, Option, some, none,
  List, [], ◌∷◌, ◌++◌, arith, length, leb, any, last?, All, All-map, All-append, if_of_both,
}
use native.Mathlib.Decide.{dec_lt}
use crypto_collector.Prelude.Int.{pos}
use crypto_collector.Prelude.Text.{to_lowercase}
use crypto_collector.Interval.{ApiInterval, secs, from_str}
use crypto_collector.Candles.{
  Decimals, CoinCandle, IntervalCoverage, select_source_interval, aggregate_candles,
}
use crypto_collector.Candles.Below.{IsBelow}
use crypto_collector.Api.{ApiResult, Fallible}
use crypto_collector.Api.Cursor.{
  Base64, Json, encode_keyset_cursor, validate_limit, paginate, select_after,
}
use crypto_collector.Api.Cursor.Codec.{
  split_page, decode_cursor-encode, paginate_short, paginate_long,
}
use crypto_collector.Api.Cursor.Walk.{walk_pages, gather}
use crypto_collector.Api.Lists.{Page, TrackedCoin, newest_first, or_usd, ensure_coin_exists}
use crypto_collector.Api.Candles.{
  CandleParams, candle_ts, in_series, native_query, required, validate_interval, row_cap_of,
  source_rows, retain_window, page_of, continuation, aggregated_page, fallback_page, list_candles,
}
use crypto_collector.Api.Candles.Progress.{
  LeadsBelow, PageBelow, paginate-PageBelow, select_after-IsBelow, aggregated_page-PageBelow,
}

module _ {D : Type 0} ⦃base64 : Base64⦄ ⦃json : Json ℕ⦄ where
  -- A page that is there and moves below a bound: the handler does not panic on it.
  abbrev IsProgress : ℕ → Page (CoinCandle D) → Type 0
  IsProgress bound page =
      (pg : List (CoinCandle D) × Option String) × (page ≡ some pg) × PageBelow bound page

  paginate-some :
      (m : ℕ) (items : List (CoinCandle D))
      → (pg : List (CoinCandle D) × Option String) × (paginate items (pos (suc m)) candle_ts
          ≡ some pg)
  paginate-some m items = elim (dec_lt (suc m) (length items)) [
    | no few ↦ ((items, none), paginate_short candle_ts (suc m) items (omega arith))
    | yes many ↦
        let (pre, x, behind, whole, front, end) = split_page m items many in
        (
          (pre ++ x ∷ [], some (encode_keyset_cursor x.ts)),
          paginate_long candle_ts (suc m) pre x items many front end,
        )
  ]

  page_of-some :
      (target_secs m row_cap : ℕ) (source agg : List (CoinCandle D))
      → (pg : List (CoinCandle D) × Option String) × (page_of target_secs (suc m) row_cap source agg
          ≡ some pg)
  unfolding page_of
  page_of-some target_secs m row_cap source agg =
      if_of_both (λ page. (pg : List (CoinCandle D) × Option String) × (page ≡ some pg))
        (leb row_cap (length source) && leb (length agg) (suc m))
        (some (agg, continuation target_secs (last? agg) (last? source)))
        (paginate agg (pos (suc m)) candle_ts)
        ((agg, continuation target_secs (last? agg) (last? source)), refl) (paginate-some m agg)

  module _ (read : Option String → ApiResult (Page (CoinCandle D)))
      (progress : (k : ℕ)
        → (page : Page (CoinCandle D)) × (read (some (encode_keyset_cursor k)) ≡ ApiResult.ok page)
          × IsProgress k page) where
    -- Readers whose pages all move below their cursor are read to the end.
    walk_to_end :
        (fuel k : ℕ)
        → k < fuel
        → (rows : List (CoinCandle D)) × (walk_pages fuel read (some (encode_keyset_cursor k))
            ≡ some rows)
          × All (IsBelow k) rows
    unfolding walk_pages
    walk_to_end zero k h = absurd (omega arith)
    walk_to_end (suc fuel) k h =
        let (page, e, ((items, next), there, below)) = progress k in
        let (found, leads) = subst (PageBelow k) there below in
        behind items next
          (subst (λ g. read (some (encode_keyset_cursor k)) ≡ ApiResult.ok g) there e) found leads
          (λ j below_k. walk_to_end fuel j (omega (arith, below_k, h)))
      where
        behind :
            (items : List (CoinCandle D)) (next : Option String)
            → read (some (encode_keyset_cursor k)) ≡ ApiResult.ok (some (items, next))
            → All (IsBelow k) items
            → LeadsBelow k next
            → ((j : ℕ)
                → j < k
                → (rows : List (CoinCandle D)) × (walk_pages fuel read
                      (some (encode_keyset_cursor j))
                    ≡ some rows)
                  × All (IsBelow j) rows)
            → (rows : List (CoinCandle D)) × (gather
                  (λ c. walk_pages fuel read (some c))
                  (read (some (encode_keyset_cursor k)))
                ≡ some rows)
              × All (IsBelow k) rows
        behind items none e found leads rest = (items, rw e refl, found)
        behind items (some c) e found (j, encoded, lower) rest =
            let (more, walked, deeper) = rest j lower in
            (
              items ++ more,
              rw (e, encoded, gather, walked) refl,
              All-append (IsBelow k) items more found
                  (All-map (IsBelow j) (IsBelow k) (λ x h. omega (arith, h, lower)) more deeper),
            )

  module _ ⦃dec : Decimals D⦄ (now : ℕ) (candles : List (CoinCandle D)) where
    aggregated_page-IsProgress :
        (coin_id vs_currency interval : String) (target_secs : ℕ) (source_interval : String)
        (source_secs : ℕ) (p : CandleParams) (cursor m : ℕ)
        → IsProgress cursor (
            aggregated_page now candles coin_id vs_currency interval target_secs source_interval
              source_secs p
              (some cursor)
              (suc m))
    unfolding aggregated_page
    aggregated_page-IsProgress coin_id vs_currency interval target_secs source_interval source_secs
          p cursor m =
        let row_cap = row_cap_of (suc m) target_secs source_secs in
        let rows =
          source_rows candles coin_id vs_currency target_secs source_interval p (some cursor)
            row_cap in
        let (pg, there) = page_of-some target_secs m row_cap rows (
          retain_window p
            (aggregate_candles rows target_secs source_secs now source_interval interval)) in
        (
          pg,
          there,
          aggregated_page-PageBelow now candles coin_id vs_currency interval target_secs
              source_interval source_secs p cursor (suc m),
        )

    fallback_page-IsProgress :
        (coverage : List IntervalCoverage) (coin_id vs_currency interval : String) (target_secs : ℕ)
        (p : CandleParams) (cursor m : ℕ)
        → IsProgress cursor (
            fallback_page now candles coverage coin_id vs_currency interval target_secs p
              (some cursor)
              (suc m))
    unfolding fallback_page
    fallback_page-IsProgress coverage coin_id vs_currency interval target_secs p cursor m =
        pick (select_source_interval coverage target_secs p.start_at now)
      where
        page : String → Option ApiInterval → Page (CoinCandle D)
        page source_interval o = elim o [
          | none ↦ some ([], none)
          | some i ↦
              aggregated_page now candles coin_id vs_currency interval target_secs source_interval
                (secs i) p (some cursor) (suc m)
        ]

        parsed :
            (source_interval : String) (o : Option ApiInterval)
            → IsProgress cursor (page source_interval o)
        parsed source_interval none = (([], none), refl, (tt, tt))
        parsed source_interval (some i) =
            aggregated_page-IsProgress coin_id vs_currency interval target_secs source_interval
              (secs i) p cursor m

        pick :
            (o : Option String)
            → IsProgress cursor (elim o [
              | none ↦ some ([], none)
              | some source_interval ↦ page source_interval (from_str source_interval)
            ])
        pick none = (([], none), refl, (tt, tt))
        pick (some source_interval) = parsed source_interval (from_str source_interval)

    native_page-IsProgress :
        (keep : CoinCandle D → Bool) (cursor m : ℕ)
        → IsProgress cursor (
            paginate
              (select_after ⦃order = newest_first⦄ candle_ts keep (some cursor) (suc m + 1) candles)
              (pos (suc m))
              candle_ts)
    native_page-IsProgress keep cursor m =
        let rows =
          select_after ⦃order = newest_first⦄ candle_ts keep (some cursor) (suc m + 1) candles in
        let (pg, there) = paginate-some m rows in
        (
          pg,
          there,
          paginate-PageBelow cursor rows (suc m)
              (select_after-IsBelow keep cursor (suc m + 1) candles),
        )

    -- A client that follows the cursors of `list_candles` from any cursor on, in the stored or in the
    -- aggregated candles, with an accepted interval and limit, comes to an end: one more page than the
    -- number that the cursor encodes is enough, no page is an error or a panic, and every candle lies
    -- before the cursor. Between its pages the tables and the clock stay as they are.
    pub list_candles-walk :
        (coins : List TrackedCoin) (coverage : List IntervalCoverage) (coin_id interval : String)
        (requested : ApiInterval) (p : CandleParams) (m : ℕ)
        → required p.interval ≡ ApiResult.ok interval
        → validate_interval interval ≡ ApiResult.ok requested
        → validate_limit p.limit ≡ Fallible.done (pos (suc m))
        → ensure_coin_exists coins coin_id ≡ ApiResult.ok tt
        → (cursor fuel : ℕ) → cursor < fuel
        → (rows : List (CoinCandle D)) × (walk_pages fuel
              (λ c. list_candles now candles coins coverage coin_id (record p { cursor = c }))
              (some (encode_keyset_cursor cursor))
            ≡ some rows)
          × All (IsBelow cursor) rows
    unfolding list_candles
    list_candles-walk coins coverage coin_id interval requested p m given valid accepted exists
          cursor fuel h =
        walk_to_end (λ c. list_candles now candles coins coverage coin_id (record p { cursor = c }))
          (λ k.
            let vs_currency = to_lowercase (or_usd p.vs_currency) in
            let q = record p { cursor = some (encode_keyset_cursor k) } in
            let native =
              paginate
                (select_after ⦃order = newest_first⦄ candle_ts
                  (native_query coin_id interval vs_currency q) (some k) (suc m + 1) candles)
                (pos (suc m)) candle_ts in
            let aggregated =
              fallback_page now candles coverage coin_id vs_currency interval (secs requested) q
                (some k) (suc m) in
            let stored = any (in_series coin_id interval vs_currency) candles in
            (
              if stored then native else aggregated,
              ground (arith, given, valid, accepted, decode_cursor-encode k, exists),
              if_of_both (IsProgress k) stored native aggregated
                  (native_page-IsProgress (native_query coin_id interval vs_currency q) k m)
                  (fallback_page-IsProgress coverage coin_id vs_currency interval (secs requested) q
                    k m),
            ))
          fuel cursor h
