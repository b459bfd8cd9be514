-- ===== src/Sync/Pull.antt =====
-- `append_peer_line` and `do_pull`.
pub mod Place
pub mod Tables
use browser_visit_logger.Database.{SyncState, Offset}
use browser_visit_logger.Base.{
  Text, List, Option, ◌∷◌, if◌then◌else◌, [], map, ◌++◌, some, ◌+◌, none,
}
use browser_visit_logger.Sync.Push.{Peer, LogLine, Session, cursor_after}
use browser_visit_logger.Files.{Files, path_exists, dir}
use browser_visit_logger.Paths.{path_join}
use browser_visit_logger.Sync.Cursors.{
  get_cursor, clear_error, set_cursor, record_error, is_auth_error,
}
use browser_visit_logger.Snapshots.Manifest.{append_to}
use browser_visit_logger.Sync.Replay.{replay_into_db}
use browser_visit_logger.Base.Strings.{codes, newline}
use browser_visit_logger.Names.{log_filename_for}
use browser_visit_logger.Base.Dict.{put}

-- The message `PeerCursor`
pub record PeerCursor : Type 0 where
  pub peer_machine_id : Text
  pub date : Text
  pub line_offset : Offset

-- A chunk of the stream that `PullLogs` returns
pub record Chunk : Type 0 where
  pub peer_machine_id : Text
  pub lines : List LogLine

-- The directories above the file are there afterwards.
abbrev make_dirs : List Text → Files → Files
make_dirs [] fs = fs
make_dirs (d ∷ ds) fs =
    let rest = make_dirs ds fs in if path_exists d rest then rest else put d dir rest

unfoldable pub append_peer_line : Text → Text → Text → Text → Files → Files
append_peer_line peer_logs_dir peer date raw fs =
    let d = path_join peer_logs_dir peer in
    append_to (path_join d (log_filename_for date)) (raw ++ newline ∷ [])
      (make_dirs (d ∷ peer_logs_dir ∷ []) fs)

unfoldable pub peer_cursor : SyncState → PeerCursor
peer_cursor s = record {
  peer_machine_id = s.machine_id;
  date = s.cursor_log_date;
  line_offset = s.cursor_line_offset;
}

-- The loop over the lines of a chunk.
unfoldable pub pull_lines : Text → Text → List LogLine → Session → Session
pull_lines peer_logs_dir peer [] s = s
pull_lines peer_logs_dir peer (l ∷ ls) s = pull_lines peer_logs_dir peer ls (record s {
  fs = append_peer_line peer_logs_dir peer l.date l.raw_line s.fs;
  db = replay_into_db l.raw_line s.db;
})

-- What `PullLogs` answers to the cursors: the chunks of the stream, and the text of the exception
-- that ends it early.
module _ (env : Peer) (pull_logs : List PeerCursor → List Chunk × Option Text) where
  unfoldable pub pull_chunk : Chunk → Session → Session
  pull_chunk c s =
      let cursor = get_cursor c.peer_machine_id s.db in
      let t = pull_lines env.peer_logs_dir c.peer_machine_id c.lines s in
      record t {
        db = set_cursor c.peer_machine_id (cursor_after c.lines cursor) (env.now t.tick) t.db;
        tick = t.tick + 1;
      }

  unfoldable pub pull_chunks : List Chunk → Session → Session
  pull_chunks [] s = s
  pull_chunks (c ∷ cs) s = pull_chunks cs (pull_chunk c s)

  abbrev pub ended : Session → Option Text → Session × Option Text
  ended s none = (record s { db = clear_error (codes "sync_pull") env.endpoint s.db }, none)
  ended s (some text) = (
    record s {
      db =
          record_error (codes "sync_pull") env.endpoint text (is_auth_error text) (env.now s.tick)
            s.db;
      tick = s.tick + 1;
    },
    some text,
  )

  unfoldable pub do_pull : Session → Session × Option Text
  do_pull s =
      let answer = pull_logs (map peer_cursor s.db.sync_state) in
      ended (pull_chunks answer.0 s) answer.1
