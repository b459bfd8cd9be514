-- ===== src/Rebuilder.antt =====
-- browser-visit-logger/native-host/visits_rebuilder.py: the database is rebuilt from the per-day logs
-- (phase 1) and from the snapshot archive (phase 2).
pub mod Lines
pub mod Replay
pub mod Collect
pub mod Rehydrate
pub mod Run
