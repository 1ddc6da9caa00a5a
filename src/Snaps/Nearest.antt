-- ===== src/Snaps/Nearest.antt =====
-- Every snap of the provider clients picks a band of its table that no other is closer to.
use crypto_collector.Prelude.{
  ℕ, ◌≤◌, inl, inr, max, List, [], ◌∷◌, refl, arith, All, All-map, first_least, first_least-le,
  All-first_least, Elem,
}
use crypto_collector.Prelude.Int.{ℤ, pos, pos_part}
use crypto_collector.Snaps.{
  distance, closer, nearest_or, kline_intervals, secs_to_kline_interval, bitstamp_steps,
  snap_to_bitstamp_step, coingecko_bands, coingecko_snap_interval, coingecko_range_bands,
  coingecko_range_snap_interval,
}

abbrev pub IsNearest : {B : Type 0} → ℤ → List (ℕ × B) → ℕ × B → Type 0
IsNearest interval_secs bands e =
    Elem e bands × All (λ b. distance interval_secs e.0 ≤ distance interval_secs b.0) bands

All-Elem : {B : Type 0} → (xs : List B) → All (λ e. Elem e xs) xs
All-Elem [] = tt
All-Elem (x ∷ xs) =
    (inl refl, All-map (λ e. Elem e xs) (λ e. Elem e (x ∷ xs)) (λ e h. inr h) xs (All-Elem xs))

nearest_or-IsNearest :
    {B : Type 0}
    → (i : ℤ) (band default : ℕ × B) (bands : List (ℕ × B))
    → IsNearest i (band ∷ bands) (nearest_or i (band ∷ bands) default)
unfolding first_least
nearest_or-IsNearest {B} i band default bands = (
  All-first_least (λ e. Elem e (band ∷ bands)) (closer i) (band ∷ bands) refl
      (All-Elem (band ∷ bands)),
  first_least-le (closer {B = B} i) (λ a b. distance i a.0 ≤ distance i b.0) (λ a b h. ground arith)
      (λ a b h. ground arith) (λ a b c h k. omega arith) (λ a. omega arith) (band ∷ bands) refl,
)

-- For any requested interval the clients of Binance, Bitstamp and CoinGecko (both endpoints) ask for
-- an interval of their table whose length is nearest to it; Bitstamp's counts requests below a
-- second as one second.
pub snaps-IsNearest :
    (i : ℤ)
    → IsNearest i kline_intervals (secs_to_kline_interval i)
      × IsNearest (pos (max (pos_part i) 1)) bitstamp_steps (snap_to_bitstamp_step i)
      × IsNearest i coingecko_bands (coingecko_snap_interval i)
      × IsNearest i coingecko_range_bands (coingecko_range_snap_interval i)
unfolding secs_to_kline_interval snap_to_bitstamp_step coingecko_snap_interval
    coingecko_range_snap_interval
snaps-IsNearest i = (
  nearest_or-IsNearest i (60, "1m") (3_600, "1h") _,
  nearest_or-IsNearest (pos (max (pos_part i) 1)) (60, "1m") (60, "1m") _,
  nearest_or-IsNearest i (1_800, "30m") (14_400, "4h") _,
  nearest_or-IsNearest i (3_600, ("hourly", "1h")) (86_400, ("daily", "1d")) _,
)
