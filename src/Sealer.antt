-- ===== src/Sealer.antt =====
-- The command lines that seal: browser-visit-logger/native-host/snapshot_sealer.py for one directory,
-- browser-visit-sync-server/sealer/seal_completed_days.py for all completed days.
pub mod One
pub mod Days
