-- ===== src/Snapshots.antt =====
-- browser-visit-snapshot-lib/snapshot_mover.py: the library that seals snapshot directories. Its
-- operations act on the file system and on a connection, and any of them may fail.
pub mod Effects
pub mod Errors
pub mod Manifest
pub mod Seal
pub mod Orphans
