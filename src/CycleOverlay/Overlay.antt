-- ===== src/CycleOverlay/Overlay.antt =====
-- `compute_overlay` of collectors/cycle_overlay.rs. A day is the number of days since the epoch;
-- `Decimal` is a type with an order, a product and a quotient. The panic of a division by zero is
-- not modelled: a price of zero gives the quotient of the parameter.
pub mod Days
pub mod Norms
use crypto_collector.Prelude.{
  ℕ, Bool, true, false, not, Option, some, none, List, [], ◌∷◌, ◌++◌, ◌≡◌, map, leb, ◌==◌, sort_by,
}
use crypto_collector.Prelude.Groups.{group_from}
use crypto_collector.Candles.{Decimals, min_from}
use crypto_collector.CycleOverlay.{CycleAssignment, assign_cycle}

-- What the code uses of rust_decimal besides the order.
pub record Quotients (D : Type 0) : Type 0 where
  pub mul : D → D → D
  pub div : D → D → D
  pub one : D
  pub is_zero : D → Bool
  pub div_self : (a : D) → is_zero a ≡ false → div a a ≡ one

pub record OverlayPoint (D : Type 0) : Type 0 where
  pub cycle_number : ℕ
  pub halving_date : ℕ
  pub days_since_halving : ℕ
  pub ts : ℕ
  pub price : D
  pub norm_halving : D
  pub norm_cycle_low : D
  pub halving_baseline_approximate : Bool
  pub projected : Bool
  pub price_low : Option D
  pub price_high : Option D

-- A day with its assignment, an entry of `CycleDayPoints`.
pub record CycleDay (D : Type 0) : Type 0 where
  pub assigned : CycleAssignment
  pub date : ℕ
  pub price : D

module _ {D : Type 0} where
  abbrev pub by_date : ℕ × D → ℕ × D → Bool
  by_date a b = leb a.0 b.0

  abbrev pub by_offset : CycleDay D → CycleDay D → Bool
  by_offset a b = leb a.assigned.days_since_halving b.assigned.days_since_halving

  abbrev pub cycle_of : CycleDay D → ℕ
  cycle_of d = d.assigned.cycle_number

  -- The loop's `if let Some(a) = assign_cycle(date)`.
  unfoldable pub assign_all : List (ℕ × D) → List (CycleDay D)
  assign_all [] = []
  assign_all ((date, price) ∷ daily) =
      let rest = assign_all daily in
      elim (assign_cycle date) [
        | none ↦ rest
        | some a ↦ record { assigned = a; date = date; price = price } ∷ rest
      ]

  module _ ⦃dec : Decimals D⦄ ⦃q : Quotients D⦄ where
    unfoldable pub point_of : ℕ → ℕ → D → D → Bool → CycleDay D → OverlayPoint D
    point_of cycle_number halving_date anchor_price cycle_low approximate d = record {
      cycle_number = cycle_number;
      halving_date = halving_date;
      days_since_halving = d.assigned.days_since_halving;
      ts = d.date;
      price = d.price;
      norm_halving = q.div d.price anchor_price;
      norm_cycle_low = q.div d.price cycle_low;
      halving_baseline_approximate = approximate;
      projected = false;
      price_low = none;
      price_high = none;
    }

    abbrev pub low_of : CycleDay D → List (CycleDay D) → D
    low_of first rest = min_from first.price (map (λ d. d.price) rest)

    -- The points of a cycle whose days are in the order of their offsets.
    unfoldable pub points_of : ℕ → ℕ → List (CycleDay D) → List (OverlayPoint D)
    points_of cycle_number halving_date [] = []
    points_of cycle_number halving_date (first ∷ rest) =
        map
          (point_of cycle_number halving_date first.price (low_of first rest)
            (not (first.assigned.days_since_halving == 0)))
          (first ∷ rest)

    -- An entry of the map: its halving date is that of its first day.
    unfoldable pub overlay_cycle : ℕ → List (CycleDay D) → List (OverlayPoint D)
    overlay_cycle cycle_number [] = []
    overlay_cycle cycle_number (first ∷ rest) =
        points_of cycle_number first.assigned.halving_date (sort_by by_offset (first ∷ rest))

    abbrev pub overlay_all : List (ℕ × List (CycleDay D)) → List (OverlayPoint D)
    overlay_all [] = []
    overlay_all ((cycle_number, points) ∷ cycles) =
        overlay_cycle cycle_number points ++ overlay_all cycles

    unfoldable pub compute_overlay : List (ℕ × D) → List (OverlayPoint D)
    compute_overlay daily =
        overlay_all (group_from cycle_of (assign_all (sort_by by_date daily)) [])
