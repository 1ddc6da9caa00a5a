-- ===== src/Api/CycleOverlay.antt =====
-- The read handlers of api/cycle_overlay.rs: the page from the table and the page that is computed as
-- of an instant. The permits that bound the computations at a time are not modelled.
pub mod AsOf
use crypto_collector.Prelude.{
  ℕ, ◌+◌, String, Bool, true, false, not, ◌&&◌, ◌||◌, Option, some, none, List, [], ◌∷◌, ◌++◌, map,
  ltb, leb, ◌==◌, ◌≡◌, str_eq, if◌then◌else◌, filter_by, sort_by, take, arith,
}
use crypto_collector.Prelude.Int.{ℤ, pos_part}
use crypto_collector.Prelude.Text.{to_lowercase}
use crypto_collector.Candles.{Decimals, CoinCandle, IntervalCoverage}
use crypto_collector.CycleOverlay.Overlay.{Quotients, OverlayPoint, compute_overlay}
use crypto_collector.CycleOverlay.Projection.{project_cycle_repeat}
use crypto_collector.CycleOverlay.Series.{
  OverlayRow, rows_of, is_of_coin, load_daily_series, use_btc_anchors,
}
use crypto_collector.Api.{ApiError, ApiResult, ◌>>=◌, bad_request_of}
use crypto_collector.Api.Cursor.{
  Base64, Json, KeyOrder, validate_limit, decode_cursor, paginate, select_after, is_after, in_order,
}
use crypto_collector.Api.Lists.{Page, or_usd}

pub data ProjectionModel : Type 0 where
  replay : ProjectionModel
  composite : ProjectionModel

unfoldable pub as_str : ProjectionModel → String
as_str ProjectionModel.replay = "replay"
as_str ProjectionModel.composite = "composite"

unfoldable pub has_confidence_bands : ProjectionModel → Bool
has_confidence_bands ProjectionModel.replay = false
has_confidence_bands ProjectionModel.composite = true

unfoldable pub from_str : String → ApiResult ProjectionModel
from_str s =
    if str_eq s "replay"
    then ApiResult.ok ProjectionModel.replay
    else if str_eq s "composite"
    then ApiResult.ok ProjectionModel.composite
    else ApiResult.err (ApiError.bad_request "unknown cycle-projection model")

-- api/cursor.rs
pub record CycleOverlayKey : Type 0 where
  pub cycle_number : ℕ
  pub days_since_halving : ℕ

abbrev pub key_lt : CycleOverlayKey → CycleOverlayKey → Bool
key_lt a b =
    ltb a.cycle_number b.cycle_number
    || (a.cycle_number == b.cycle_number) && ltb a.days_since_halving b.days_since_halving

pub key_lt_asym : (a b : CycleOverlayKey) → key_lt a b ≡ true → key_lt b a ≡ false
key_lt_asym a b h = ground arith

pub key_lt_trans :
    (a b c : CycleOverlayKey) → key_lt a b ≡ true → key_lt b c ≡ true → key_lt a c ≡ true
key_lt_trans a b c h k = ground arith

pub not_key_lt_trans :
    (a b c : CycleOverlayKey) → key_lt b a ≡ false → key_lt c b ≡ false → key_lt c a ≡ false
not_key_lt_trans a b c h k = ground arith

-- `ORDER BY cycle_number ASC, days_since_halving ASC`.
instance abbrev pub cycle_order : KeyOrder CycleOverlayKey
cycle_order = record {
  lt = key_lt;
  lt_asym = key_lt_asym;
  lt_trans = key_lt_trans;
  not_lt_trans = not_key_lt_trans;
}

pub record OverlayParams : Type 0 where
  pub vs_currency : Option String
  pub cycle : Option ℕ
  pub cursor : Option String
  pub limit : Option ℤ
  pub as_of : Option ℕ

-- `$3 IS NULL OR cycle_number = $3`.
abbrev pub in_cycle : Option ℕ → ℕ → Bool
in_cycle none cycle_number = true
in_cycle (some c) cycle_number = cycle_number == c

module _ {D : Type 0} where
  abbrev pub point_key : OverlayPoint D → CycleOverlayKey
  point_key p = record { cycle_number = p.cycle_number; days_since_halving = p.days_since_halving }

  abbrev pub row_key : OverlayRow D → CycleOverlayKey
  row_key r = point_key r.point

  -- `projection_model IN ('real', $7)`.
  unfoldable pub overlay_query : String → String → Option ℕ → String → OverlayRow D → Bool
  overlay_query coin_id vs_currency cycle projected_model r =
      is_of_coin coin_id vs_currency r
      && (str_eq r.projection_model "real" || str_eq r.projection_model projected_model)
      && in_cycle cycle r.point.cycle_number

  -- The SELECT of the table; rows of equal keys come in the order of insertion.
  unfoldable pub table_page :
      List (OverlayRow D)
      → String
      → String
      → Option ℕ
      → Option CycleOverlayKey
      → ℕ
      → String
      → List (OverlayPoint D)
  table_page table coin_id vs_currency cycle cursor limit projected_model =
      map (λ (r : OverlayRow D). r.point)
        (select_after row_key (overlay_query coin_id vs_currency cycle projected_model) cursor
          (limit + 1) table)

  -- The filters, the sort and the cut in memory.
  unfoldable pub build_as_of_page :
      List (OverlayPoint D)
      → List (OverlayPoint D)
      → Option ℕ
      → Option CycleOverlayKey
      → ℕ
      → List (OverlayPoint D)
  build_as_of_page real projected cycle_filter cursor limit = take (limit + 1) (
      sort_by (in_order point_key) (
        filter_by (is_after point_key cursor)
          (filter_by (λ p. in_cycle cycle_filter p.cycle_number) (real ++ projected))))

  module _ ⦃dec : Decimals D⦄ ⦃q : Quotients D⦄
      (project_composite : List (ℕ × D)
        → List (OverlayPoint D)
        → Bool
        → List (OverlayPoint D)) where
    -- None is the panic of `unreachable!`.
    unfoldable pub project_as_of_for_model :
        String
        → List (ℕ × D)
        → List (OverlayPoint D)
        → String
        → String
        → Option (List (OverlayPoint D))
    project_as_of_for_model projected_model daily real coin_id vs_currency =
        if str_eq projected_model "replay"
        then some (project_cycle_repeat daily real)
        else if str_eq projected_model "composite"
        then some (project_composite daily real (use_btc_anchors coin_id vs_currency))
        else none

    module _ (coverage : List IntervalCoverage) (candles : List (CoinCandle D))
        (table : List (OverlayRow D)) where
      unfoldable pub compute_as_of_page :
          String
          → String
          → ℕ
          → Option ℕ
          → Option CycleOverlayKey
          → ℕ
          → String
          → Option (List (OverlayPoint D))
      compute_as_of_page coin_id vs_currency as_of cycle cursor limit projected_model =
          let daily = load_daily_series coverage candles coin_id vs_currency (some as_of) in
          let real = compute_overlay daily in
          elim (project_as_of_for_model projected_model daily real coin_id vs_currency) [
            | none ↦ none
            | some projected ↦ some (build_as_of_page real projected cycle cursor limit)
          ]

      abbrev pub page_items :
          Option ℕ
          → String
          → String
          → Option ℕ
          → Option CycleOverlayKey
          → ℕ
          → String
          → Option (List (OverlayPoint D))
      page_items none coin_id vs_currency cycle cursor limit projected_model =
          some (table_page table coin_id vs_currency cycle cursor limit projected_model)
      page_items (some as_of) coin_id vs_currency cycle cursor limit projected_model =
          compute_as_of_page coin_id vs_currency as_of cycle cursor limit projected_model

      abbrev pub paged :
          ⦃base64 : Base64⦄ ⦃json : Json CycleOverlayKey⦄
          → ℤ
          → Option (List (OverlayPoint D))
          → Page (OverlayPoint D)
      paged limit none = none
      paged limit (some items) = paginate items limit point_key

      module _ ⦃base64 : Base64⦄ ⦃json : Json CycleOverlayKey⦄ where
        unfoldable pub list_overlay_for_model :
            String → OverlayParams → String → ApiResult (Page (OverlayPoint D))
        list_overlay_for_model coin_id p projected_model = do
          limit ← bad_request_of (validate_limit p.limit)
          cursor ← bad_request_of (decode_cursor p.cursor)
          let vs_currency = to_lowercase (or_usd p.vs_currency)
          ApiResult.ok (
              paged limit (
                page_items p.as_of coin_id vs_currency p.cycle cursor (pos_part limit)
                  projected_model))

        -- The model is parsed before anything is read.
        unfoldable pub list_cycle_projection_data :
            String → String → OverlayParams → ApiResult (Page (OverlayPoint D))
        list_cycle_projection_data coin_id model_text p = do
          model ← from_str model_text
          list_overlay_for_model coin_id p (as_str model)
