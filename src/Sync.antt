-- ===== src/Sync.antt =====
-- browser-visit-logger/native-host/sync_client.py: exchanges log lines with the sync server. The
-- server, the channel and the clock are parameters; the statements and the file writes succeed, and
-- the files are read at once.
pub mod Cursors
pub mod Replay
pub mod Push
pub mod Pull
pub mod Run
pub mod Exchange
