-- ===== src/Sync/Run.antt =====
-- `open_db` and `main`.
pub mod Laws
use browser_visit_logger.Base.{
  Text, Option, ℕ, Bool, if◌then◌else◌, true, List, some, ◌||◌, is_empty, none, not, ◌&&◌, ◌+◌, [],
}
use browser_visit_logger.Sync.Push.{Peer, Session, do_push}
use browser_visit_logger.Sync.Pull.{PeerCursor, Chunk, do_pull}
use browser_visit_logger.Sync.Cursors.{mark_attempt, record_error, should_skip, or_empty}
use browser_visit_logger.Base.Strings.{codes}
use browser_visit_logger.Database.{DbFile, create_if_missing}

-- `open_db`: the tables that the client needs and the file does not have are created empty; `snapshots`
-- is not one of them.
unfoldable pub open_db : DbFile → DbFile
open_db file = record file {
  visits = some (create_if_missing [] file.visits);
  read_events =
      some (create_if_missing (record { rows = []; default_directory = [] }) file.read_events);
  skimmed_events =
      some (create_if_missing (record { rows = []; default_directory = [] }) file.skimmed_events);
  sync_state = some (create_if_missing [] file.sync_state);
  mover_errors = some (create_if_missing [] file.mover_errors);
}

-- What a run is started with: the machine and the server that the arguments, the environment or the
-- configuration name, `--force`, whether another run holds the lock, and the exception of
-- `build_channel`.
pub record Start : Type 0 where
  pub machine_id : Option Text
  pub endpoint : Option Text
  pub force : Bool
  pub is_locked : Bool
  pub handshake : Option Text

module _ (env : Peer) (is_recent : Text → Option Bool)
    (pull_logs : List PeerCursor → List Chunk × Option Text) where
  abbrev pub commit : Session → Session
  commit s = record s { saved = s.db }

  abbrev pub marked : Option Text → Session → Session
  marked error s = record s {
    db = mark_attempt env.machine_id error (env.now s.tick) s.db;
    tick = s.tick + 1;
  }

  -- The `except` clause and the end of the `try` that talks to the server.
  abbrev pub pulled : Session × Option Text → Session × ℕ
  pulled (s, none) = (commit (marked none (commit s)), 0)
  pulled (s, some text) = (commit (marked (some text) s), 1)

  abbrev pub pushed : Session × Option Text → Session × ℕ
  pushed (s, none) = pulled (do_pull env pull_logs (commit s))
  pushed (s, some text) = (commit (marked (some text) s), 1)

  unfoldable pub exchange : Session → Session × ℕ
  exchange s = pushed (do_push env s)

  unfoldable pub after_handshake : Option Text → Session → Session × ℕ
  after_handshake none s = exchange s
  after_handshake (some text) s =
      let t = marked (some text) s in
      (
        commit (record t {
          db = record_error (codes "sync_handshake") env.endpoint text true (env.now t.tick) t.db;
          tick = t.tick + 1;
        }),
        1,
      )

  -- The body under the lock; the connection is closed behind it.
  unfoldable pub run : Bool → Option Text → Session → Session × ℕ
  run force handshake s =
      if not force && should_skip is_recent env.machine_id s.db
      then (s, 0)
      else after_handshake handshake (commit (marked none s))

abbrev lacks : Option Text → Bool
lacks none = true
lacks (some t) = is_empty t

-- The exit code of `main` before it takes the lock, where it stops there.
unfoldable pub refused : Start → Option ℕ
refused start =
    if lacks start.machine_id
    then some 2
    else if lacks start.endpoint || start.is_locked
    then some 0
    else none

abbrev pub peer_of : Peer → Start → Peer
peer_of env start = record env {
  machine_id = or_empty start.machine_id;
  endpoint = or_empty start.endpoint;
}

module _ (env : Peer) (is_recent : Text → Option Bool)
    (pull_logs : List PeerCursor → List Chunk × Option Text) (start : Start) (s : Session) where
  abbrev pub unless_refused : Option ℕ → Session × ℕ
  unless_refused (some code) = (s, code)
  unless_refused none = run (peer_of env start) is_recent pull_logs start.force start.handshake s

  unfoldable pub main : Session × ℕ
  main = unless_refused (refused start)
