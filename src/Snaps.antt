-- ===== src/Snaps.antt =====
-- The interval snaps of the provider clients (providers/binance.rs, providers/bitstamp.rs and
-- providers/coingecko.rs) and the bounds of their requests. A requested interval is a signed number
-- of seconds; the smallest i64, whose distances overflow, is left aside.
pub mod Nearest
use crypto_collector.Prelude.{
  ℕ, ◌+◌, ◌-◌, ◌*◌, ◌/◌, ◌^◌, min, max, String, Bool, Option, some, none, List, [], ◌∷◌, ltb,
  str_eq, first_least, if◌then◌else◌,
}
use crypto_collector.Prelude.Int.{ℤ, pos, ◌-ℤ◌, abs, pos_part}

-- `(interval_secs - s).abs()`
unfoldable pub distance : ℤ → ℕ → ℕ
distance interval_secs s = abs (interval_secs -ℤ pos s)

-- A band is its seconds and what it stands for.
abbrev pub closer : {B : Type 0} → ℤ → ℕ × B → ℕ × B → Bool
closer interval_secs a b = ltb (distance interval_secs a.0) (distance interval_secs b.0)

abbrev pub nearest_or : {B : Type 0} → ℤ → List (ℕ × B) → ℕ × B → ℕ × B
nearest_or interval_secs bands default = elim (first_least (closer interval_secs) bands) [
  | none ↦ default
  | some band ↦ band
]

abbrev pub kline_intervals : List (ℕ × String)
kline_intervals =
    (60, "1m")
    ∷ (180, "3m")
    ∷ (300, "5m")
    ∷ (900, "15m")
    ∷ (1_800, "30m")
    ∷ (3_600, "1h")
    ∷ (7_200, "2h")
    ∷ (14_400, "4h")
    ∷ (21_600, "6h")
    ∷ (28_800, "8h")
    ∷ (43_200, "12h")
    ∷ (86_400, "1d")
    ∷ (259_200, "3d")
    ∷ (604_800, "1w")
    ∷ (2_592_000, "1M")
    ∷ []

unfoldable pub secs_to_kline_interval : ℤ → ℕ × String
secs_to_kline_interval interval_secs = nearest_or interval_secs kline_intervals (3_600, "1h")

unfoldable pub kline_limit : ℕ → ℕ → ℕ
kline_limit days snapped_secs = min (max (days * 86_400 / max snapped_secs 1) 1) 1000

abbrev pub bitstamp_steps : List (ℕ × String)
bitstamp_steps =
    (60, "1m")
    ∷ (180, "3m")
    ∷ (300, "5m")
    ∷ (900, "15m")
    ∷ (1_800, "30m")
    ∷ (3_600, "1h")
    ∷ (7_200, "2h")
    ∷ (14_400, "4h")
    ∷ (21_600, "6h")
    ∷ (43_200, "12h")
    ∷ (86_400, "1d")
    ∷ (259_200, "3d")
    ∷ []

-- The loop keeps the best step so far and takes a step only if it is strictly closer.
unfoldable pub snap_to_bitstamp_step : ℤ → ℕ × String
snap_to_bitstamp_step interval_secs =
    nearest_or (pos (max (pos_part interval_secs) 1)) bitstamp_steps (60, "1m")

abbrev pub saturate : ℕ → ℕ
saturate x = min x (2 ^ 63 - 1)

unfoldable pub page_end_secs : ℕ → ℕ → ℕ → ℕ → ℕ
page_end_secs start_secs end_secs step_secs limit =
    let window = saturate (step_secs * limit) in
    let capped = saturate (start_secs + window) in max (min end_secs capped) start_secs

abbrev pub coingecko_bands : List (ℕ × String)
coingecko_bands = (1_800, "30m") ∷ (14_400, "4h") ∷ (345_600, "4d") ∷ []

unfoldable pub coingecko_snap_interval : ℤ → ℕ × String
coingecko_snap_interval interval_secs = nearest_or interval_secs coingecko_bands (14_400, "4h")

unfoldable pub coingecko_days_for_interval : String → ℕ → ℕ
coingecko_days_for_interval interval requested_days =
    if str_eq interval "30m"
    then 1
    else if str_eq interval "4h"
    then min (max requested_days 2) 30
    else max requested_days 31

-- The request parameter and the canonical stamp of a band of the range endpoint.
abbrev pub coingecko_range_bands : List (ℕ × (String × String))
coingecko_range_bands = (3_600, ("hourly", "1h")) ∷ (86_400, ("daily", "1d")) ∷ []

unfoldable pub coingecko_range_snap_interval : ℤ → ℕ × (String × String)
coingecko_range_snap_interval interval_secs =
    nearest_or interval_secs coingecko_range_bands (86_400, ("daily", "1d"))

-- In days.
unfoldable pub coingecko_range_max_span : String → ℕ
coingecko_range_max_span interval = if str_eq interval "hourly" then 31 else 180
