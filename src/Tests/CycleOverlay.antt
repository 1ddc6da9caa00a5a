-- ===== src/Tests/CycleOverlay.antt =====
-- Witnesses for the properties of the cycle overlay, with natural numbers as decimals.
use Prim.Native.Char.{code}
use crypto_collector.Prelude.{
  ℕ, zero, suc, ◌+◌, ◌-◌, ◌*◌, ◌/◌, ◌<◌, ◌≤◌, ◌==◌, ◌⊎◌, String, Bool, false, some, none, List, [],
  ◌∷◌, ◌≡◌, refl, arith, map, All, Elem, filter_by, if◌then◌else◌,
}
use crypto_collector.Prelude.Text.{to_lowercase}
use crypto_collector.Prelude.Int.{pos}
use crypto_collector.Candles.{IntervalCoverage, second}
use crypto_collector.CycleOverlay.Overlay.{Quotients, OverlayPoint, compute_overlay}
use crypto_collector.CycleOverlay.Overlay.Days.{days_of}
use crypto_collector.CycleOverlay.Overlay.Norms.{at_cycle, IsOverlayOf, compute_overlay_lem}
use crypto_collector.CycleOverlay.Projection.{
  cycle_days, series_of, price_at_or_before, project_cycle_repeat,
}
use crypto_collector.CycleOverlay.Projection.Replay.{days_from, Replays, project_cycle_repeat_lem}
use crypto_collector.CycleOverlay.Series.{
  Candidate, candidates_of, narrower, select_widest_source_interval, recompute_cycle_overlay,
}
use crypto_collector.CycleOverlay.Series.Widest.{IsDivisorOf, select_widest_source_interval_lem}
use crypto_collector.Api.Cursor.{Json}
use crypto_collector.Api.CycleOverlay.{CycleOverlayKey, OverlayParams, list_cycle_projection_data}
use crypto_collector.Api.CycleOverlay.AsOf.{list_cycle_projection_data-as_of}
use crypto_collector.Tests.Candles.{whole, candle}
use crypto_collector.Tests.Api.{plain, tally, count, count-tally}

instance abbrev quotients : Quotients ℕ
quotients = record {
  mul = ◌*◌;
  div = λ a b. if a == b then 1 else a / b;
  one = 1;
  is_zero = λ a. a == 0;
  div_self = λ a h. ground arith;
}

-- Two days of the second cycle, and one of the third.
abbrev daily : List (ℕ × ℕ)
daily = (16_993, 600) ∷ (16_992, 650) ∷ (18_393, 8_600) ∷ []

compute_overlay_lem_example :
    IsOverlayOf 2 (days_of 2 daily) (filter_by (at_cycle 2) (compute_overlay daily))
compute_overlay_lem_example = compute_overlay_lem 2 daily

-- A history of just the 1458 days.
abbrev history : List (ℕ × ℕ)
history = (20_000, 90) ∷ (18_542, 10) ∷ (19_000, 30) ∷ []

abbrev ordered : List (ℕ × ℕ)
ordered = (18_542, 10) ∷ (19_000, 30) ∷ (20_000, 90) ∷ []

project_cycle_repeat_lem_example :
    let points = project_cycle_repeat history [] in
    ((20_000 < 18_542 + cycle_days) × (points ≡ []))
    ⊎ ((18_542 + cycle_days ≤ 20_000)
        × ((base : ℕ) × (price_at_or_before (20_000 - cycle_days) ordered ≡ some base)
            × (map (λ p. p.ts) points ≡ days_from cycle_days (20_000 + 1))
            × All (λ p. Replays ordered 20_000 90 base (p.ts, p.price)) points))
unfolding series_of
project_cycle_repeat_lem_example =
    project_cycle_repeat_lem [] history ((19_000, 30) ∷ (20_000, 90) ∷ []) 18_542 20_000 10 90 refl
      refl

abbrev stored : List IntervalCoverage
stored =
    record { interval = "1h"; earliest = 0; latest = 900_000 * second }
    ∷ record { interval = "4h"; earliest = 0; latest = 900_000 * second }
    ∷ []

select_widest_source_interval_lem_example :
    ((select_widest_source_interval stored 86_400 ≡ none) × (candidates_of 86_400 stored ≡ []))
    ⊎ ((c : Candidate) × (select_widest_source_interval stored 86_400 ≡ some c.name)
        × Elem c (candidates_of 86_400 stored)
        × IsDivisorOf 86_400 c
        × All (λ d. narrower c d ≡ false) (candidates_of 86_400 stored))
select_widest_source_interval_lem_example = select_widest_source_interval_lem stored 86_400

abbrev read_key : ℕ → String → CycleOverlayKey
read_key n String.[] = record { cycle_number = n; days_since_halving = 0 }
read_key n (String.◌∷◌ c s) =
    let rest = read_key (suc n) s in
    if code c == b'a' then rest else record { cycle_number = n; days_since_halving = count s }

abbrev print_key : ℕ → String → String
print_key zero s = String.◌∷◌ "b" s
print_key (suc n) s = String.◌∷◌ "a" (print_key n s)

read_key-print_key :
    (n m days : ℕ)
    → read_key m (print_key n (tally days))
      ≡ record { cycle_number = n + m; days_since_halving = count (tally days) }
read_key-print_key zero m days = ground arith
read_key-print_key (suc n) m days = ground (arith, read_key-print_key n (suc m) days)

instance abbrev key_tallies : Json CycleOverlayKey
key_tallies = record {
  to_string = λ k. print_key k.cycle_number (tally k.days_since_halving);
  from_slice = λ s. some (read_key 0 s);
  from_slice-to_string = λ k. ground (
    arith,
    read_key-print_key k.cycle_number 0 k.days_since_halving,
    count-tally k.days_since_halving,
  );
}

abbrev no_composite : List (ℕ × ℕ) → List (OverlayPoint ℕ) → Bool → List (OverlayPoint ℕ)
no_composite days real use_anchors = []

abbrev query : OverlayParams
query = record {
  vs_currency = some "USD";
  cycle = some 2;
  cursor = none;
  limit = some (pos 10);
  as_of = none;
}

list_cycle_projection_data-as_of_example :
    let candles = record (candle 1_468_195_200 650) { interval = "1d" } ∷ [] in
    let rebuilt = recompute_cycle_overlay no_composite [] candles "btc" (to_lowercase "USD") [] in
    list_cycle_projection_data no_composite [] candles rebuilt "btc" "replay" query
    ≡ list_cycle_projection_data no_composite [] candles rebuilt "btc" "replay"
        (record query { as_of = some (1_500_000_000 * second) })
list_cycle_projection_data-as_of_example =
    list_cycle_projection_data-as_of no_composite []
      (record (candle 1_468_195_200 650) { interval = "1d" } ∷ []) [] "btc" "replay" query
      (1_500_000_000 * second) (omega arith, tt)
