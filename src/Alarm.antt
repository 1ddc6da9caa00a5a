-- ===== src/Alarm.antt =====
-- The alarms of alarm/: the health registry, the catalogue of conditions and the reconciler.
pub mod Health
pub mod Catalog
pub mod Reconciler
