-- ===== src/CycleOverlay/Projection.antt =====
-- `project_cycle_repeat` of collectors/cycle_overlay.rs: the returns of the last cycle replayed from
-- today. A day is the number of days since the epoch.
pub mod Replay
use crypto_collector.Prelude.{
  ℕ, zero, suc, ◌+◌, ◌-◌, Bool, true, false, Option, some, none, List, [], ◌∷◌, ◌++◌, map, ltb, leb,
  ◌==◌, if◌then◌else◌, last?, find_by, filter_by, first_least,
}
use crypto_collector.Prelude.Groups.{group_from}
use crypto_collector.Candles.{Decimals, min_from}
use crypto_collector.CycleOverlay.{CycleAssignment, assign_cycle_in}
use crypto_collector.CycleOverlay.Overlay.{Quotients, OverlayPoint}

abbrev pub cycle_days : ℕ
cycle_days = 1_458

-- `raw.push(Raw { … })`.
pub record Raw (D : Type 0) : Type 0 where
  pub ts : ℕ
  pub price : D
  pub assigned : CycleAssignment

-- On `projected_halving_dates`.
abbrev pub projected_cycle : ℕ → CycleAssignment
projected_cycle date = assign_cycle_in date 15_672 (16_991 ∷ 18_393 ∷ 19_833 ∷ 21_294 ∷ [])

module _ {D : Type 0} where
  -- A later price of a day replaces the earlier one.
  abbrev pub insert_day : ℕ → D → List (ℕ × D) → List (ℕ × D)
  insert_day day price [] = (day, price) ∷ []
  insert_day day price ((d, p) ∷ series) =
      let rest = insert_day day price series in
      if day == d
      then (day, price) ∷ series
      else if ltb day d
      then (day, price) ∷ (d, p) ∷ series
      else (d, p) ∷ rest

  abbrev pub collect_from : List (ℕ × D) → List (ℕ × D) → List (ℕ × D)
  collect_from series [] = series
  collect_from series ((day, price) ∷ daily) = collect_from (insert_day day price series) daily

  -- `daily.iter().copied().collect::<BTreeMap<_, _>>()`.
  unfoldable pub series_of : List (ℕ × D) → List (ℕ × D)
  series_of daily = collect_from [] daily

  -- `series.range(..=date).next_back()`, on ascending days.
  unfoldable pub price_at_or_before : ℕ → List (ℕ × D) → Option D
  price_at_or_before date [] = none
  price_at_or_before date ((d, p) ∷ series) =
      let rest = price_at_or_before date series in
      if leb d date then elim rest [ none ↦ some p | some later ↦ some later ] else none

  abbrev pub raw_cycle : Raw D → ℕ
  raw_cycle r = r.assigned.cycle_number

  abbrev pub same_cycle : ℕ → OverlayPoint D → Bool
  same_cycle k p = p.cycle_number == k

  -- `min_by_key(days_since_halving)`.
  abbrev pub by_days : Raw D → Raw D → Bool
  by_days a b = ltb a.assigned.days_since_halving b.assigned.days_since_halving

  module _ ⦃dec : Decimals D⦄ ⦃q : Quotients D⦄ where
    -- The loop over `k` for `n` more days.
    unfoldable pub raw_points : List (ℕ × D) → ℕ → ℕ → D → D → ℕ → ℕ → List (Raw D)
    raw_points series today base_date current base zero k = []
    raw_points series today base_date current base (suc n) k =
        let rest = raw_points series today base_date current base n (suc k) in
        elim (price_at_or_before (base_date + k) series) [
          | none ↦ rest
          | some ref ↦
              record {
                ts = today + k;
                price = q.div (q.mul current ref) base;
                assigned = projected_cycle (today + k);
              }
              ∷ rest
        ]

    -- `rl.min(projected_low)`.
    abbrev pub lower_low : D → List D → D
    lower_low projected [] = projected
    lower_low projected (p ∷ ps) =
        if dec.lt projected (min_from p ps) then projected else min_from p ps

    -- The price that a cycle is divided by: of its real points, or of its first projected day.
    unfoldable pub cycle_anchor : ℕ → List (OverlayPoint D) → Raw D → List (Raw D) → D
    cycle_anchor k real_points first rest = elim (find_by (same_cycle k) real_points) [
      | some p ↦ q.div p.price p.norm_halving
      | none ↦ elim (first_least by_days (first ∷ rest)) [ none ↦ first.price | some r ↦ r.price ]
    ]

    unfoldable pub cycle_low : ℕ → List (OverlayPoint D) → Raw D → List (Raw D) → D
    cycle_low k real_points first rest =
        lower_low (min_from first.price (map (λ r. r.price) rest))
          (map (λ p. p.price) (filter_by (same_cycle k) real_points))

    unfoldable pub projected_point : ℕ → D → D → Raw D → OverlayPoint D
    projected_point k anchor low r = record {
      cycle_number = k;
      halving_date = r.assigned.halving_date;
      days_since_halving = r.assigned.days_since_halving;
      ts = r.ts;
      price = r.price;
      norm_halving = q.div r.price anchor;
      norm_cycle_low = q.div r.price low;
      halving_baseline_approximate = true;
      projected = true;
      price_low = none;
      price_high = none;
    }

    unfoldable pub projected_cycle_points :
        List (OverlayPoint D) → ℕ → List (Raw D) → List (OverlayPoint D)
    projected_cycle_points real_points k [] = []
    projected_cycle_points real_points k (first ∷ rest) =
        map
          (projected_point k (cycle_anchor k real_points first rest)
            (cycle_low k real_points first rest))
          (first ∷ rest)

    abbrev pub projected_all :
        List (OverlayPoint D) → List (ℕ × List (Raw D)) → List (OverlayPoint D)
    projected_all real_points [] = []
    projected_all real_points ((k, points) ∷ cycles) =
        projected_cycle_points real_points k points ++ projected_all real_points cycles

    -- The replay behind the check of the history.
    unfoldable pub replay : List (ℕ × D) → List (OverlayPoint D) → ℕ → D → List (OverlayPoint D)
    replay series real_points today current =
        elim (price_at_or_before (today - cycle_days) series) [
          | none ↦ []
          | some base ↦ projected_all real_points (
              group_from raw_cycle
                (raw_points series today (today - cycle_days) current base cycle_days 1) [])
        ]

    -- Fewer than 1458 days of history give nothing.
    unfoldable pub project_series : List (ℕ × D) → List (OverlayPoint D) → List (OverlayPoint D)
    project_series [] real_points = []
    project_series ((earliest, p) ∷ series) real_points = elim (last? ((earliest, p) ∷ series)) [
      | none ↦ []
      | some newest ↦
          if ltb newest.0 (earliest + cycle_days)
          then []
          else replay ((earliest, p) ∷ series) real_points newest.0 newest.1
    ]

    unfoldable pub project_cycle_repeat :
        List (ℕ × D) → List (OverlayPoint D) → List (OverlayPoint D)
    project_cycle_repeat daily real_points = project_series (series_of daily) real_points
