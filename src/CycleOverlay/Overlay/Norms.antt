-- ===== src/CycleOverlay/Overlay/Norms.antt =====
-- The normalised prices of `compute_overlay` (collectors/cycle_overlay.rs).
use crypto_collector.Prelude.{
  ℕ, inl, inr, Bool, false, not, none, List, [], ◌∷◌, ◌≡◌, ◌∙◌, refl, ap, sym, subst, arith, map,
  ◌==◌, sort_by, All, filter_by, sort_by_of_IsSorted, IsSorted, append_empty, filter_by-append,
  Elem, Elem-map, Elem-of_map, All-Elem, All-of_image, All-image, Bool-cases,
}
use crypto_collector.Prelude.Groups.{
  group_from, members_of, members_of-group_from, members_of-above, IsAscendingMap,
  group_from-IsAscendingMap,
}
use crypto_collector.Candles.{Decimals}
use crypto_collector.Candles.Fold.{le, min_from_le}
use crypto_collector.Candles.Members.{Elem-min_from}
use crypto_collector.CycleOverlay.Overlay.{
  Quotients, OverlayPoint, CycleDay, by_date, by_offset, cycle_of, assign_all, point_of, points_of,
  low_of, overlay_cycle, overlay_all, compute_overlay,
}
use crypto_collector.CycleOverlay.Overlay.Days.{days_of, days_of-IsSorted}

module _ {D : Type 0} ⦃dec : Decimals D⦄ ⦃q : Quotients D⦄ where
  abbrev pub at_cycle : ℕ → OverlayPoint D → Bool
  at_cycle k p = p.cycle_number == k

  -- The points of a cycle from its days.
  abbrev pub cycle_points : ℕ → List (CycleDay D) → List (OverlayPoint D)
  cycle_points k [] = []
  cycle_points k (first ∷ rest) = points_of k first.assigned.halving_date (first ∷ rest)

  kept :
      (k hd : ℕ) (anchor low : D) (approximate : Bool) (days : List (CycleDay D))
      → filter_by (at_cycle k) (map (point_of k hd anchor low approximate) days)
        ≡ map (point_of k hd anchor low approximate) days
  unfolding point_of
  kept k hd anchor low approximate [] = refl
  kept k hd anchor low approximate (d ∷ days) =
      ground (arith, kept k hd anchor low approximate days)

  dropped :
      (k key hd : ℕ) (anchor low : D) (approximate : Bool) (days : List (CycleDay D))
      → (key == k) ≡ false
      → filter_by (at_cycle k) (map (point_of key hd anchor low approximate) days) ≡ []
  unfolding point_of
  dropped k key hd anchor low approximate [] h = refl
  dropped k key hd anchor low approximate (d ∷ days) h =
      ground (arith, dropped k key hd anchor low approximate days)

  points_of-kept :
      (k hd : ℕ) (days : List (CycleDay D))
      → filter_by (at_cycle k) (points_of k hd days) ≡ points_of k hd days
  unfolding points_of
  points_of-kept k hd [] = refl
  points_of-kept k hd (first ∷ rest) =
      kept k hd first.price (low_of first rest) (not (first.assigned.days_since_halving == 0))
        (first ∷ rest)

  points_of-dropped :
      (k key hd : ℕ) (days : List (CycleDay D))
      → (key == k) ≡ false
      → filter_by (at_cycle k) (points_of key hd days) ≡ []
  unfolding points_of
  points_of-dropped k key hd [] h = refl
  points_of-dropped k key hd (first ∷ rest) h =
      dropped k key hd first.price (low_of first rest)
        (not (first.assigned.days_since_halving == 0)) (first ∷ rest) h

  overlay_cycle-kept :
      (k : ℕ) (days : List (CycleDay D))
      → filter_by (at_cycle k) (overlay_cycle k days) ≡ overlay_cycle k days
  unfolding overlay_cycle
  overlay_cycle-kept k [] = refl
  overlay_cycle-kept k (first ∷ rest) =
      points_of-kept k first.assigned.halving_date (sort_by by_offset (first ∷ rest))

  overlay_cycle-dropped :
      (k key : ℕ) (days : List (CycleDay D))
      → (key == k) ≡ false
      → filter_by (at_cycle k) (overlay_cycle key days) ≡ []
  unfolding overlay_cycle
  overlay_cycle-dropped k key [] h = refl
  overlay_cycle-dropped k key (first ∷ rest) h =
      points_of-dropped k key first.assigned.halving_date (sort_by by_offset (first ∷ rest)) h

  overlay_cycle-nil : (k : ℕ) → overlay_cycle {D = D} k [] ≡ []
  unfolding overlay_cycle
  overlay_cycle-nil k = refl

  overlay_all-cycle :
      (k : ℕ) (m : List (ℕ × List (CycleDay D)))
      → IsAscendingMap m
      → filter_by (at_cycle k) (overlay_all m) ≡ overlay_cycle k (members_of k m)
  overlay_all-cycle k [] s = sym (overlay_cycle-nil k)
  overlay_all-cycle k ((key, members) ∷ m) s =
      let later = overlay_all-cycle k m s.1 in
      let split = filter_by-append (at_cycle k) (overlay_cycle key members) (overlay_all m) in
      elim (Bool-cases (key == k)) [
        | inl same ↦ ground (
          arith,
          split,
          later,
          overlay_cycle-kept k members,
          members_of-above k key m,
          s.0,
          overlay_cycle-nil k,
          append_empty (overlay_cycle k members),
        )
        | inr other ↦ ground (arith, split, later, overlay_cycle-dropped k key members other)
      ]

  overlay_cycle-sorted :
      (k : ℕ) (days : List (CycleDay D))
      → IsSorted by_offset days
      → overlay_cycle k days ≡ cycle_points k days
  unfolding overlay_cycle
  overlay_cycle-sorted k [] s = refl
  overlay_cycle-sorted k (first ∷ rest) s =
      ap (points_of k first.assigned.halving_date) (sort_by_of_IsSorted by_offset (first ∷ rest) s)

  compute_overlay-points :
      (k : ℕ) (daily : List (ℕ × D))
      → filter_by (at_cycle k) (compute_overlay daily) ≡ cycle_points k (days_of k daily)
  unfolding compute_overlay
  compute_overlay-points k daily =
      let days = assign_all (sort_by by_date daily) in
      overlay_all-cycle k (group_from cycle_of days [])
        (group_from-IsAscendingMap cycle_of days [] tt)
      ∙ ap (overlay_cycle k) (members_of-group_from cycle_of k days [] tt)
      ∙ overlay_cycle-sorted k (days_of k daily) (days_of-IsSorted k daily)

  -- The overlay of the days of a cycle: every price over the first and over a least one.
  abbrev pub IsOverlayOf : ℕ → List (CycleDay D) → List (OverlayPoint D) → Type 0
  IsOverlayOf k [] points = points ≡ []
  IsOverlayOf k (first ∷ rest) points =
      let prices = map (λ (d : CycleDay D). d.price) (first ∷ rest) in
      (low : D) × Elem low prices
      × All (λ x. le low x) prices
      × (points
          ≡ map
              (λ (d : CycleDay D). record {
                cycle_number = k;
                halving_date = first.assigned.halving_date;
                days_since_halving = d.assigned.days_since_halving;
                ts = d.date;
                price = d.price;
                norm_halving = q.div d.price first.price;
                norm_cycle_low = q.div d.price low;
                halving_baseline_approximate = not (first.assigned.days_since_halving == 0);
                projected = false;
                price_low = none;
                price_high = none;
              })
              (first ∷ rest))

  cycle_points-IsOverlayOf :
      (k : ℕ) (days : List (CycleDay D)) → IsOverlayOf k days (cycle_points k days)
  unfolding points_of point_of
  cycle_points-IsOverlayOf k [] = refl
  cycle_points-IsOverlayOf k (first ∷ rest) = (
    low_of first rest,
    Elem-min_from (map (λ d. d.price) rest) first.price,
    min_from_le (map (λ d. d.price) rest) first.price,
    refl,
  )

  -- The points of a cycle come from the days of that cycle, one for each, in the order of dates: each
  -- has the price of its day, that price over the price of the first day and that price over a least
  -- price of the cycle, and all are marked as approximate exactly if the first day is not the halving
  -- itself. A cycle without days has no points.
  pub compute_overlay_lem :
      (k : ℕ) (daily : List (ℕ × D))
      → IsOverlayOf k (days_of k daily) (filter_by (at_cycle k) (compute_overlay daily))
  compute_overlay_lem k daily =
      subst (IsOverlayOf k (days_of k daily)) (sym (compute_overlay-points k daily))
        (cycle_points-IsOverlayOf k (days_of k daily))

  -- The first point is one by the halving, and some point of the least price is one by the low.
  abbrev IsAnchored : List (OverlayPoint D) → Type 0
  IsAnchored [] = Unit {0}
  IsAnchored (first ∷ rest) =
      (first.norm_halving ≡ q.one)
      × ((low : OverlayPoint D) × Elem low (first ∷ rest)
          × (low.norm_cycle_low ≡ q.one)
          × All (λ p. le low.price p.price) (first ∷ rest))

  cycle_points-IsAnchored :
      (k : ℕ) (days : List (CycleDay D))
      → All (λ d. q.is_zero d.price ≡ false) days
      → IsAnchored (cycle_points k days)
  unfolding points_of point_of
  cycle_points-IsAnchored k [] n = tt
  cycle_points-IsAnchored k (first ∷ rest) n =
      let prices = map (λ (d : CycleDay D). d.price) (first ∷ rest) in
      let point =
        point_of k first.assigned.halving_date first.price (low_of first rest)
          (not (first.assigned.days_since_halving == 0)) in
      let (day, among, least) =
        Elem-of_map (λ (d : CycleDay D). d.price) (low_of first rest) (first ∷ rest)
          (Elem-min_from (map (λ d. d.price) rest) first.price) in
      let below : All (λ x. le (low_of first rest) x) prices =
        min_from_le (map (λ d. d.price) rest) first.price in
      (
        q.div_self first.price n.0,
        (
          point day,
          Elem-map point day (first ∷ rest) among,
          rw (← least) (
              q.div_self day.price
                (All-Elem (λ d. q.is_zero d.price ≡ false) day (first ∷ rest) n among)),
          All-image point (λ p. le day.price p.price) (first ∷ rest)
              (All-of_image (λ (d : CycleDay D). d.price) (λ x. le day.price x) (first ∷ rest)
                (subst (λ v. All (λ x. le v x) prices) (sym least) below)),
        ),
      )

  -- If no price of a cycle is zero, the first point of the cycle is exactly one by the halving price,
  -- and a point with the least price of the cycle is exactly one by the cycle's low.
  compute_overlay-IsAnchored :
      (k : ℕ) (daily : List (ℕ × D))
      → All (λ d. q.is_zero d.price ≡ false) (days_of k daily)
      → IsAnchored (filter_by (at_cycle k) (compute_overlay daily))
  compute_overlay-IsAnchored k daily n =
      subst IsAnchored (sym (compute_overlay-points k daily))
        (cycle_points-IsAnchored k (days_of k daily) n)
