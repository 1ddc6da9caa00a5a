-- ===== src/Tests/Schedules.antt =====
-- Witnesses for the interval snaps, the supervisor and the halving cycles.
use crypto_collector.Prelude.{
  ℕ, ◌+◌, ◌<◌, ◌⊎◌, max, false, Option, some, none, List, [], ◌∷◌, ◌≡◌, refl, first_least,
}
use crypto_collector.Prelude.Int.{pos, pos_part, ◌-ℤ◌}
use crypto_collector.Snaps.{
  kline_intervals, secs_to_kline_interval, bitstamp_steps, snap_to_bitstamp_step, coingecko_bands,
  coingecko_snap_interval, coingecko_range_bands, coingecko_range_snap_interval, distance,
}
use crypto_collector.Snaps.Nearest.{IsNearest, snaps-IsNearest}
use crypto_collector.Collectors.Supervisor.{
  Run, failed, panicked, clean, run_supervised, supervise_initial_backoff,
}
use crypto_collector.Collectors.Supervisor.Backoff.{delays_after, run_supervised_lem}
use crypto_collector.CycleOverlay.{CycleAssignment, assign_cycle, assign_cycle_in}
use crypto_collector.CycleOverlay.Cycles.{window_of, Precedes, assign_cycle_lem}

snaps-IsNearest_example :
    IsNearest (pos 1000) kline_intervals (secs_to_kline_interval (pos 1000))
    × IsNearest
        (pos (max (pos_part (pos 1000)) 1))
        bitstamp_steps
        (snap_to_bitstamp_step (pos 1000))
    × IsNearest (pos 1000) coingecko_bands (coingecko_snap_interval (pos 1000))
    × IsNearest (pos 1000) coingecko_range_bands (coingecko_range_snap_interval (pos 1000))
snaps-IsNearest_example = snaps-IsNearest (pos 1000)

abbrev runs : List Run
runs =
    record {
      shutdown_before = false;
      ended = failed;
      shutdown_after = false;
      uptime = 4;
      recorded_at = 10;
    }
    ∷ record {
      shutdown_before = false;
      ended = panicked;
      shutdown_after = false;
      uptime = 5;
      recorded_at = 30;
    }
    ∷ record {
      shutdown_before = false;
      ended = clean;
      shutdown_after = false;
      uptime = 6;
      recorded_at = 60;
    }
    ∷ []

run_supervised_lem_example :
    (run_supervised "backfill" runs supervise_initial_backoff none).0 ≡ delays_after 0 runs
run_supervised_lem_example = run_supervised_lem "backfill" runs none

assign_cycle_lem_example :
    ((assign_cycle 19_840 ≡ none) × (19_840 < 15_672))
    ⊎ ((a : CycleAssignment) × (next : Option ℕ) × (assign_cycle 19_840 ≡ some a)
        × (window_of a.cycle_number ≡ some (a.halving_date, next))
        × Precedes 19_840 next
        × (19_840 ≡ a.halving_date + a.days_since_halving)
        × (19_840 < 21_294
            → assign_cycle_in 19_840 15_672 (16_991 ∷ 18_393 ∷ 19_833 ∷ 21_294 ∷ []) ≡ a))
assign_cycle_lem_example = assign_cycle_lem 19_840

-- A request halfway between an hour and a day goes to the hourly band.
tie_goes_hourly : (coingecko_range_snap_interval (pos 45_000)).1.0 ≡ "hourly"
unfolding coingecko_range_snap_interval first_least distance ◌-ℤ◌
tie_goes_hourly = refl
