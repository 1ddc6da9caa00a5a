-- ===== src/Tests.antt =====
-- Witnesses and tests of the properties of the other modules.
mod Collation
mod Alarm
mod Providers
mod Rollup
mod Schedules
mod Pacer
mod Candles
mod Backfill
mod Collectors
mod Api
mod CycleOverlay
mod LivePoller
mod Database
