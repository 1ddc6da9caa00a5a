-- ===== src/CycleOverlay/Projection/Replay.antt =====
-- The days and prices of `project_cycle_repeat` (collectors/cycle_overlay.rs).
use crypto_collector.Prelude.{
  ℕ, zero, suc, ◌+◌, ◌-◌, ◌<◌, ◌≤◌, ◌⊎◌, inl, inr, some, List, [], ◌∷◌, ◌++◌, ◌≡◌, ◌∙◌, refl, ap,
  sym, subst, arith, map, last?, All, All-of_image, All-image, Option-cases,
}
use native.Mathlib.Decide.{dec_lt}
use mathlib.Core.List.{map-append, map-map}
use crypto_collector.Prelude.Groups.{group_from, flatten, flatten-group_from, NeverFalls}
use crypto_collector.Candles.{Decimals}
use crypto_collector.CycleOverlay.{assign_cycle_in}
use crypto_collector.CycleOverlay.Overlay.{Quotients, OverlayPoint}
use crypto_collector.CycleOverlay.Projection.{
  Raw, cycle_days, projected_cycle, series_of, price_at_or_before, raw_cycle, raw_points,
  projected_point, projected_cycle_points, projected_all, replay, project_series,
  project_cycle_repeat, cycle_anchor, cycle_low,
}

-- The days from one on.
abbrev pub days_from : ℕ → ℕ → List ℕ
days_from zero day = []
days_from (suc n) day = day ∷ days_from n (suc day)

-- The cycle of a day is not before that of the day before.
next_cycle :
    (day : ℕ) → (projected_cycle day).cycle_number ≤ (projected_cycle (suc day)).cycle_number
unfolding assign_cycle_in
next_cycle day = ground arith

module _ {D : Type 0} where
  price_found :
      (date d : ℕ) (p : D) (series : List (ℕ × D))
      → d ≤ date
      → (r : D) × (price_at_or_before date ((d, p) ∷ series) ≡ some r)
  unfolding price_at_or_before
  price_found date d p series h = elim (Option-cases (price_at_or_before date series)) [
    | inl nothing ↦ (p, ground arith)
    | inr (later, found) ↦ (later, ground arith)
  ]

module _ {D : Type 0} ⦃dec : Decimals D⦄ ⦃q : Quotients D⦄ (series : List (ℕ × D)) (today : ℕ)
    (current base : D) where
  -- A price of the replay: today's, times the return of the day one cycle before.
  abbrev pub Replays : ℕ × D → Type 0
  Replays (day, price) =
      (ref : D) × (price_at_or_before (day - cycle_days) series ≡ some ref)
      × (price ≡ q.div (q.mul current ref) base)

  -- The days of a replay from `day` on, in order, each with its price, in cycles that never fall.
  abbrev IsReplay : ℕ → ℕ → List (Raw D) → Type 0
  IsReplay n day raw =
      (map (λ (r : Raw D). r.ts) raw ≡ days_from n day)
      × All (λ (r : Raw D). Replays (r.ts, r.price)) raw
      × ((c : ℕ) → c ≤ (projected_cycle day).cycle_number → NeverFalls raw_cycle c raw)

  abbrev raw_at : ℕ → D → Raw D
  raw_at day ref = record {
    ts = day;
    price = q.div (q.mul current ref) base;
    assigned = projected_cycle day;
  }

  raw_points-step :
      (n k : ℕ) (ref : D)
      → price_at_or_before (today - cycle_days + k) series ≡ some ref
      → raw_points series today (today - cycle_days) current base (suc n) k
        ≡ raw_at (today + k) ref
          ∷ raw_points series today (today - cycle_days) current base n (suc k)
  unfolding raw_points
  raw_points-step n k ref found = ground (arith, found)

  IsReplay-step :
      (n day : ℕ) (ref : D) (raw : List (Raw D))
      → price_at_or_before (day - cycle_days) series ≡ some ref
      → IsReplay n (suc day) raw
      → IsReplay (suc n) day (raw_at day ref ∷ raw)
  IsReplay-step n day ref raw found (days, prices, cycles) = (
    ap (λ t. day ∷ t) days,
    ((ref, found, refl), prices),
    λ c l. (l, cycles (projected_cycle day).cycle_number (next_cycle day)),
  )

  raw_points-IsReplay :
      (earliest : ℕ) (p : D) (rest : List (ℕ × D))
      → series ≡ (earliest, p) ∷ rest
      → earliest + cycle_days ≤ today
      → (n k : ℕ)
      → IsReplay n (today + k) (raw_points series today (today - cycle_days) current base n k)
  unfolding raw_points
  raw_points-IsReplay earliest p rest e h zero k = (refl, tt, λ c l. tt)
  raw_points-IsReplay earliest p rest e h (suc n) k =
      let later = raw_points-IsReplay earliest p rest e h n (suc k) in
      let (ref, found) = price_found (today - cycle_days + k) earliest p rest (omega arith) in
      let here : price_at_or_before (today - cycle_days + k) series ≡ some ref =
        ap (price_at_or_before (today - cycle_days + k)) e ∙ found in
      subst (IsReplay (suc n) (today + k)) (sym (raw_points-step n k ref here)) (
        IsReplay-step n (today + k) ref
          (raw_points series today (today - cycle_days) current base n (suc k))
          (ap (λ d. price_at_or_before d series) (omega arith) ∙ here)
          (subst
            (λ d.
              IsReplay n d (raw_points series today (today - cycle_days) current base n (suc k)))
            (omega arith) later))

module _ {D : Type 0} ⦃dec : Decimals D⦄ ⦃q : Quotients D⦄
    (real_points : List (OverlayPoint D)) where
  abbrev day_and_price : OverlayPoint D → ℕ × D
  day_and_price p = (p.ts, p.price)

  abbrev raw_day_and_price : Raw D → ℕ × D
  raw_day_and_price r = (r.ts, r.price)

  map-points :
      (k : ℕ) (anchor low : D) (raw : List (Raw D))
      → map day_and_price (map (projected_point k anchor low) raw) ≡ map raw_day_and_price raw
  unfolding projected_point
  map-points k anchor low [] = refl
  map-points k anchor low (r ∷ raw) =
      ap (λ t. raw_day_and_price r ∷ t) (map-points k anchor low raw)

  map-cycle :
      (k : ℕ) (raw : List (Raw D))
      → map day_and_price (projected_cycle_points real_points k raw) ≡ map raw_day_and_price raw
  unfolding projected_cycle_points
  map-cycle k [] = refl
  map-cycle k (first ∷ rest) =
      map-points k (cycle_anchor k real_points first rest) (cycle_low k real_points first rest)
        (first ∷ rest)

  map-all :
      (m : List (ℕ × List (Raw D)))
      → map day_and_price (projected_all real_points m) ≡ map raw_day_and_price (flatten m)
  map-all [] = refl
  map-all ((k, raw) ∷ m) =
      map-append day_and_price (projected_cycle_points real_points k raw)
        (projected_all real_points m)
      ∙ ap (λ t. t ++ map day_and_price (projected_all real_points m)) (map-cycle k raw)
      ∙ ap (λ t. map raw_day_and_price raw ++ t) (map-all m)
      ∙ sym (map-append raw_day_and_price raw (flatten m))

  -- The whole replay: the 1458 days behind today, in order, and their prices.
  abbrev IsReplayOf : List (ℕ × D) → ℕ → D → D → List (OverlayPoint D) → Type 0
  IsReplayOf series today current base points =
      (map (λ p. p.ts) points ≡ days_from cycle_days (today + 1))
      × All (λ p. Replays series today current base (p.ts, p.price)) points

  from_pairs :
      (P : ℕ × D → Type 0) (days : List ℕ) (points : List (OverlayPoint D)) (raw : List (Raw D))
      → map day_and_price points ≡ map raw_day_and_price raw
      → map (λ (r : Raw D). r.ts) raw ≡ days
      → All (λ (r : Raw D). P (r.ts, r.price)) raw
      → (map (λ (p : OverlayPoint D). p.ts) points ≡ days)
        × All (λ (p : OverlayPoint D). P (p.ts, p.price)) points
  from_pairs P days points raw same d a = (
    (sym (map-map (λ (x : ℕ × D). x.0) day_and_price points)
        ∙ ap (map (λ (x : ℕ × D). x.0)) same
        ∙ map-map (λ (x : ℕ × D). x.0) raw_day_and_price raw
        ∙ d),
    All-of_image day_and_price P points
        (subst (All P) (sym same) (All-image raw_day_and_price P raw a)),
  )

  replay-IsReplayOf :
      (series : List (ℕ × D)) (today earliest : ℕ) (current base p : D) (rest : List (ℕ × D))
      → series ≡ (earliest, p) ∷ rest
      → earliest + cycle_days ≤ today
      → price_at_or_before (today - cycle_days) series ≡ some base
      → IsReplayOf series today current base (replay series real_points today current)
  unfolding replay
  replay-IsReplayOf series today earliest current base p rest e h found =
      let raw = raw_points series today (today - cycle_days) current base cycle_days 1 in
      let (days, prices, cycles) =
        raw_points-IsReplay series today current base earliest p rest e h cycle_days 1 in
      let points = projected_all real_points (group_from raw_cycle raw []) in
      let ordered : map day_and_price points ≡ map raw_day_and_price raw =
        map-all (group_from raw_cycle raw [])
        ∙ ap (map raw_day_and_price)
            (flatten-group_from raw_cycle 0 raw [] tt tt (cycles 0 (omega arith))) in
      let whole : replay series real_points today current ≡ points = ground (arith, found) in
      subst (IsReplayOf series today current base) (sym whole) (
        from_pairs (Replays series today current base) (days_from cycle_days (today + 1)) points raw
          ordered days prices)

  -- With fewer than 1458 days between the first and the last day of the history nothing is projected.
  -- Otherwise the projection has exactly the 1458 days behind the last one, in order and without a
  -- gap, and the price of each is the last price times the return since the first day of the window
  -- of the day one cycle before it, a missing day counting as the one before it.
  pub project_cycle_repeat_lem :
      (daily series : List (ℕ × D)) (earliest today : ℕ) (p current : D)
      → series_of daily ≡ (earliest, p) ∷ series
      → last? ((earliest, p) ∷ series) ≡ some (today, current)
      → let whole = (earliest, p) ∷ series in
        let points = project_cycle_repeat daily real_points in
        ((today < earliest + cycle_days) × (points ≡ []))
        ⊎ ((earliest + cycle_days ≤ today)
            × ((base : D) × (price_at_or_before (today - cycle_days) whole ≡ some base)
                × (map (λ p. p.ts) points ≡ days_from cycle_days (today + 1))
                × All (λ p. Replays whole today current base (p.ts, p.price)) points))
  unfolding project_cycle_repeat project_series
  project_cycle_repeat_lem daily series earliest today p current e newest =
      elim (dec_lt today (earliest + cycle_days)) [
        | yes short ↦ inl (short, ground (arith, e, newest))
        | no long ↦
            let (base, found) = price_found (today - cycle_days) earliest p series (omega arith) in
            let whole = (earliest, p) ∷ series in
            let same : project_cycle_repeat daily real_points
                ≡ replay whole real_points today current =
              ground (arith, e, newest) in
            let (days, prices) = subst (IsReplayOf whole today current base) (sym same) (
              replay-IsReplayOf whole today earliest current base p series refl (omega arith)
                found) in
            inr (omega arith, (base, found, days, prices))
      ]
