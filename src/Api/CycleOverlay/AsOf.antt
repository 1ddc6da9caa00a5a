-- ===== src/Api/CycleOverlay/AsOf.antt =====
-- The table that collectors/cycle_overlay.rs rebuilds, read by api/cycle_overlay.rs, against the
-- computation as of an instant.
use mathlib.Core.List.{map-append}
use mathlib.Core.Path.{fun_ext}
use crypto_collector.Prelude.{
  ℕ, ◌+◌, ◌≤◌, String, Bool, true, false, not, ◌&&◌, ◌||◌, Option, some, none, List, [], ◌∷◌, ◌++◌,
  map, ◌≡◌, ◌∙◌, ap, sym, str_eq, str_eq_iff, if◌then◌else◌, filter_by, sort_by, take, arith, All,
  All-map, filter_by-append, filter_by_of_none, filter_by-holds, map-sort_by, map-take,
  append_empty,
}
use crypto_collector.Prelude.Text.{to_lowercase}
use crypto_collector.Candles.{Decimals, CoinCandle, IntervalCoverage}
use crypto_collector.CycleOverlay.Overlay.{Quotients, OverlayPoint, compute_overlay}
use crypto_collector.CycleOverlay.Projection.{project_cycle_repeat}
use crypto_collector.CycleOverlay.Series.{
  OverlayRow, rows_of, is_of_coin, load_daily_series, use_btc_anchors, recompute_cycle_overlay,
}
use crypto_collector.CycleOverlay.Series.AsOf.{load_daily_series-as_of}
use crypto_collector.Prelude.Int.{pos_part}
use crypto_collector.Api.{ApiResult, ◌>>=◌, bad_request_of}
use crypto_collector.Api.Cursor.{
  Base64, Json, is_after, in_order, select_after, validate_limit, decode_cursor,
}
use crypto_collector.Api.Cursor.Order.{filter_by-and}
use crypto_collector.Api.Lists.{or_usd}
use crypto_collector.Api.CycleOverlay.{
  ProjectionModel, as_str, from_str, CycleOverlayKey, cycle_order, OverlayParams, in_cycle,
  point_key, row_key, overlay_query, table_page, build_as_of_page, project_as_of_for_model,
  compute_as_of_page, paged, list_overlay_for_model, list_cycle_projection_data,
}

module _ {D : Type 0} where
  abbrev keeps : Option ℕ → Option CycleOverlayKey → OverlayPoint D → Bool
  keeps cycle cursor p = in_cycle cycle p.cycle_number && is_after point_key cursor p

  module _ (coin_id vs_currency : String) (cycle : Option ℕ) (cursor : Option CycleOverlayKey)
      (projected_model : String) where
    abbrev selects : OverlayRow D → Bool
    selects r =
        overlay_query coin_id vs_currency cycle projected_model r && is_after row_key cursor r

    -- The rows of a group are all asked for, or none is.
    filter_by-rows_of :
        (model : String) (group : List (OverlayPoint D))
        → map
            (λ (r : OverlayRow D). r.point)
            (filter_by selects (rows_of coin_id vs_currency model group))
          ≡ (if str_eq model "real" || str_eq model projected_model
              then filter_by (keeps cycle cursor) group
              else [])
    unfolding overlay_query
    filter_by-rows_of model [] = ground arith
    filter_by-rows_of model (p ∷ group) = ground (
      arith,
      filter_by-rows_of model group,
      str_eq_iff coin_id coin_id,
      str_eq_iff vs_currency vs_currency,
    )

    others :
        (table : List (OverlayRow D))
        → filter_by selects (filter_by (λ r. not (is_of_coin coin_id vs_currency r)) table) ≡ []
    unfolding overlay_query
    others table =
        filter_by_of_none selects (filter_by (λ r. not (is_of_coin coin_id vs_currency r)) table) (
          All-map (λ r. not (is_of_coin coin_id vs_currency r) ≡ true) (λ r. selects r ≡ false)
            (λ r h. ground arith) (filter_by (λ r. not (is_of_coin coin_id vs_currency r)) table)
            (filter_by-holds (λ r. not (is_of_coin coin_id vs_currency r)) table))

    abbrev point_of_row : OverlayRow D → OverlayPoint D
    point_of_row r = r.point

    -- The page in memory, with both filters in one.
    page_of_kept :
        (real projected : List (OverlayPoint D)) (limit : ℕ)
        → build_as_of_page real projected cycle cursor limit
          ≡ take (limit + 1) (
              sort_by
                (in_order point_key)
                (filter_by (keeps cycle cursor) real ++ filter_by (keeps cycle cursor) projected))
    unfolding build_as_of_page
    page_of_kept real projected limit =
        ap (λ t. take (limit + 1) (sort_by (in_order point_key) t))
          (sym (
              filter_by-and (λ p. in_cycle cycle p.cycle_number) (is_after point_key cursor)
                (real ++ projected))
            ∙ filter_by-append (keeps cycle cursor) real projected)

    -- The page of the table from the points of the rows that are asked for.
    page_of_rows :
        (table : List (OverlayRow D)) (limit : ℕ)
        → table_page table coin_id vs_currency cycle cursor limit projected_model
          ≡ take
              (limit + 1)
              (sort_by (in_order point_key) (map point_of_row (filter_by selects table)))
    unfolding table_page select_after
    page_of_rows table limit =
        map-take point_of_row (limit + 1) (sort_by (in_order row_key) (filter_by selects table))
        ∙ ap (take (limit + 1))
            (map-sort_by point_of_row (in_order point_key) (filter_by selects table))

    -- The points asked for among three groups of rows of the coin.
    points_of_groups :
        (table : List (OverlayRow D)) (real replayed composed : List (OverlayPoint D))
        → map point_of_row (
            filter_by selects (
              filter_by (λ r. not (is_of_coin coin_id vs_currency r)) table
              ++ (rows_of coin_id vs_currency "real" real
                  ++ (rows_of coin_id vs_currency "replay" replayed
                      ++ rows_of coin_id vs_currency "composite" composed))))
          ≡ filter_by (keeps cycle cursor) real
            ++ ((if str_eq "replay" projected_model
                  then filter_by (keeps cycle cursor) replayed
                  else [])
                ++ (if str_eq "composite" projected_model
                    then filter_by (keeps cycle cursor) composed
                    else []))
    points_of_groups table real replayed composed =
        let a = filter_by (λ (r : OverlayRow D). not (is_of_coin coin_id vs_currency r)) table in
        let b = rows_of coin_id vs_currency "real" real in
        let c = rows_of coin_id vs_currency "replay" replayed in
        let d = rows_of coin_id vs_currency "composite" composed in
        ground (
          arith,
          filter_by-append selects a (b ++ (c ++ d)),
          filter_by-append selects b (c ++ d),
          filter_by-append selects c d,
          others table,
          map-append point_of_row (filter_by selects b)
              (filter_by selects c ++ filter_by selects d),
          map-append point_of_row (filter_by selects c) (filter_by selects d),
          filter_by-rows_of "real" real,
          filter_by-rows_of "replay" replayed,
          filter_by-rows_of "composite" composed,
        )

module _ {D : Type 0} ⦃dec : Decimals D⦄ ⦃q : Quotients D⦄
    (project_composite : List (ℕ × D) → List (OverlayPoint D) → Bool → List (OverlayPoint D))
    (coverage : List IntervalCoverage) (candles : List (CoinCandle D)) (table : List (OverlayRow D))
    (coin_id vs_currency : String) (t : ℕ) (covered : All (λ c. c.ts ≤ t) candles) where
  abbrev daily : List (ℕ × D)
  daily = load_daily_series coverage candles coin_id vs_currency none

  abbrev real : List (OverlayPoint D)
  real = compute_overlay daily

  abbrev projection : ProjectionModel → List (OverlayPoint D)
  projection ProjectionModel.replay = project_cycle_repeat daily real
  projection ProjectionModel.composite =
      project_composite daily real (use_btc_anchors coin_id vs_currency)

  abbrev rebuilt : List (OverlayRow D)
  rebuilt = recompute_cycle_overlay project_composite coverage candles coin_id vs_currency table

  module _ (cycle : Option ℕ) (cursor : Option CycleOverlayKey) (limit : ℕ) where
    computed :
        (m : ProjectionModel)
        → compute_as_of_page project_composite coverage candles rebuilt coin_id vs_currency t cycle
            cursor limit
            (as_str m)
          ≡ some (build_as_of_page real (projection m) cycle cursor limit)
    unfolding compute_as_of_page project_as_of_for_model as_str
    computed ProjectionModel.replay =
        ground (arith, load_daily_series-as_of coverage candles coin_id vs_currency t covered)
    computed ProjectionModel.composite =
        ground (arith, load_daily_series-as_of coverage candles coin_id vs_currency t covered)

    selected :
        (m : ProjectionModel)
        → map
            (λ (r : OverlayRow D). r.point)
            (filter_by (selects coin_id vs_currency cycle cursor (as_str m)) rebuilt)
          ≡ filter_by (keeps cycle cursor) real ++ filter_by (keeps cycle cursor) (projection m)
    unfolding recompute_cycle_overlay as_str
    selected ProjectionModel.replay =
        points_of_groups coin_id vs_currency cycle cursor "replay" table real
          (projection ProjectionModel.replay) (projection ProjectionModel.composite)
        ∙ ap (λ ps. filter_by (keeps cycle cursor) real ++ ps)
            (sym
              (append_empty (filter_by (keeps cycle cursor) (projection ProjectionModel.replay))))
    selected ProjectionModel.composite =
        points_of_groups coin_id vs_currency cycle cursor "composite" table real
          (projection ProjectionModel.replay) (projection ProjectionModel.composite)

    same_page :
        (m : ProjectionModel)
        → some (table_page rebuilt coin_id vs_currency cycle cursor limit (as_str m))
          ≡ compute_as_of_page project_composite coverage candles rebuilt coin_id vs_currency t
              cycle cursor limit
              (as_str m)
    same_page m =
        ap some (
          page_of_rows coin_id vs_currency cycle cursor (as_str m) rebuilt limit
          ∙ ap (λ ps. take (limit + 1) (sort_by (in_order point_key) ps)) (selected m)
          ∙ sym
              (page_of_kept coin_id vs_currency cycle cursor (as_str m) real (projection m) limit))
        ∙ sym (computed m)

-- The two ways to the overlay of a coin do not drift apart: for any model text and query, the table
-- that the recompute has just rebuilt, whatever it held before, answers exactly like the computation
-- as of an instant behind all candles. Both answer with the same error, page and cursor.
pub list_cycle_projection_data-as_of :
    {D : Type 0} ⦃dec : Decimals D⦄ ⦃q : Quotients D⦄ ⦃base64 : Base64⦄
    ⦃json : Json CycleOverlayKey⦄
    (project_composite : List (ℕ × D) → List (OverlayPoint D) → Bool → List (OverlayPoint D))
    (coverage : List IntervalCoverage) (candles : List (CoinCandle D)) (table : List (OverlayRow D))
    (coin_id model_text : String) (p : OverlayParams) (t : ℕ)
    → All (λ (c : CoinCandle D). c.ts ≤ t) candles
    → let rebuilt =
        recompute_cycle_overlay project_composite coverage candles coin_id
          (to_lowercase (or_usd p.vs_currency))
          table in
      list_cycle_projection_data project_composite coverage candles rebuilt coin_id model_text
        (record p { as_of = none })
      ≡ list_cycle_projection_data project_composite coverage candles rebuilt coin_id model_text
          (record p { as_of = some t })
unfolding list_cycle_projection_data list_overlay_for_model
list_cycle_projection_data-as_of project_composite coverage candles table coin_id model_text p t
      covered =
    let vs_currency = to_lowercase (or_usd p.vs_currency) in
    let rebuilt =
      recompute_cycle_overlay project_composite coverage candles coin_id vs_currency table in
    ap (λ rest. from_str model_text >>= rest)
      (fun_ext λ m.
        ap (λ rest. bad_request_of (validate_limit p.limit) >>= rest)
          (fun_ext λ limit.
            ap (λ rest. bad_request_of (decode_cursor p.cursor) >>= rest)
              (fun_ext λ cursor.
                ap
                  (λ items.
                    ApiResult.ok (paged project_composite coverage candles rebuilt limit items))
                  (same_page project_composite coverage candles table coin_id vs_currency t covered
                    p.cycle cursor (pos_part limit) m))))
