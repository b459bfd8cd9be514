-- ===== src/Tests/Sync.antt =====
-- Runs of the sync client at small inputs.
use browser_visit_logger.Base.{[], text_eq, nat_eq, true, false, none, some, ◌≡◌, ◌++◌, refl}
use mathlib.Core.List.{flat_map}
use browser_visit_logger.Base.Sorting.{sorted}
use browser_visit_logger.Names.{log_date}
use browser_visit_logger.Sync.Cursors.{get_cursor, set_cursor, clear_error, record_error}
use browser_visit_logger.Sync.Push.Batches.{all_of, do_push_sends_lines_after_cursor}
use browser_visit_logger.Sync.Replay.{replay_into_db}
use browser_visit_logger.Sync.Push.{
  Peer, do_push, Session, push_lines, send_push, cursor_after, lines_to_push, list_local_log_dates,
  read_log_lines_after, lines_after,
}
use browser_visit_logger.Host.Counters.{IsConsistent}
use browser_visit_logger.Base.Strings.{codes, file_lines}
use browser_visit_logger.Tests.{empty_db, example_files, example_paths, example_db}
use browser_visit_logger.Rebuilder.Run.{rebuild}
use browser_visit_logger.Sync.Replay.Laws.{replay_into_db_again}
use browser_visit_logger.Sync.Push.Behind.{lines_behind, last_place}
use browser_visit_logger.Sync.Push.Place.{do_push_keeps_cursors_on_failure, do_push_moves_cursor}
use browser_visit_logger.Database.{file_of}
use browser_visit_logger.Rebuilder.Run.Laws.{rebuild-IsConsistent}
use browser_visit_logger.Files.{is_dir, list_dir, content_of}
use browser_visit_logger.Base.{Text, List, Option, ◌∷◌, map}
use browser_visit_logger.Sync.Replay.Recovery.{replay_all, replay_all_again}
use browser_visit_logger.Sync.Pull.{PeerCursor, Chunk, do_pull, peer_cursor}
use browser_visit_logger.Sync.Pull.Place.{lines_of, do_pull_moves_cursors}
use browser_visit_logger.Sync.Pull.Tables.{tables, brought, do_pull_applies_lines}
use browser_visit_logger.Sync.Run.{Start, run, main}
use browser_visit_logger.Base.{append-nil}
use browser_visit_logger.Database.{before_first}
use browser_visit_logger.Sync.Exchange.{logged, first_exchange_replays_logs}
use browser_visit_logger.Sync.Pull.Tables.{raw_lines}
use browser_visit_logger.Sync.Run.{commit, marked}
use browser_visit_logger.Base.{false, none, ap}
use browser_visit_logger.Sync.Run.Laws.{error_of, Ended, run-Ended, main-IsConsistent}

-- A server that takes every request, and one that refuses every request.
abbrev example_peer : Peer
example_peer = record {
  machine_id = codes "m";
  endpoint = codes "s";
  log_dir = codes "/l";
  peer_logs_dir = codes "/p";
  now = λ n. codes "now";
  push_logs = λ earlier lines. none;
}

abbrev refusing_peer : Peer
refusing_peer = record example_peer { push_logs = λ earlier lines. some (codes "UNAUTHENTICATED") }

abbrev example_session : Session
example_session = record {
  db = empty_db;
  saved = empty_db;
  fs = example_files;
  sent = [];
  tick = 0;
}

pushed_example : (do_push example_peer example_session).1 ≡ none
unfolding do_push push_lines send_push lines_to_push list_local_log_dates read_log_lines_after
    lines_after get_cursor set_cursor cursor_after clear_error is_dir list_dir content_of file_lines
    flat_map sorted log_date
pushed_example = refl

refused_example : (do_push refusing_peer example_session).1 ≡ some (codes "UNAUTHENTICATED")
unfolding do_push push_lines send_push lines_to_push list_local_log_dates read_log_lines_after
    lines_after get_cursor set_cursor cursor_after record_error is_dir list_dir content_of
    file_lines flat_map sorted log_date
refused_example = refl

do_push_sends_lines_after_cursor_example :
    all_of (do_push example_peer example_session).0.sent
    ≡ all_of [] ++ lines_behind (codes "/l") (get_cursor (codes "m") empty_db) example_files
do_push_sends_lines_after_cursor_example =
    do_push_sends_lines_after_cursor example_peer example_session pushed_example

do_push_moves_cursor_example :
    get_cursor (codes "m") (do_push example_peer example_session).0.db
    ≡ last_place
        (lines_behind (codes "/l") (get_cursor (codes "m") empty_db) example_files)
        (get_cursor (codes "m") empty_db)
do_push_moves_cursor_example = do_push_moves_cursor example_peer example_session pushed_example

do_push_keeps_cursors_on_failure_example :
    (do_push refusing_peer example_session).0.db.sync_state ≡ []
do_push_keeps_cursors_on_failure_example =
    do_push_keeps_cursors_on_failure refusing_peer example_session (codes "UNAUTHENTICATED")
      refused_example

replay_into_db_again_example :
    replay_into_db
      (codes "i\tt\tu\ttitle\tread\tf")
      (replay_into_db (codes "i\tt\tu\ttitle\tread\tf") empty_db)
    ≡ replay_into_db (codes "i\tt\tu\ttitle\tread\tf") empty_db
replay_into_db_again_example = replay_into_db_again (codes "i\tt\tu\ttitle\tread\tf") empty_db

abbrev a_line : Text
a_line = codes "i\tt\tu\ttitle\tread\tf"

replay_all_again_example :
    replay_all (a_line ∷ a_line ∷ []) (replay_all (codes "other" ∷ a_line ∷ []) empty_db)
    ≡ replay_all (codes "other" ∷ a_line ∷ []) empty_db
unfolding text_eq nat_eq
replay_all_again_example =
    replay_all_again (codes "other" ∷ a_line ∷ []) (a_line ∷ a_line ∷ []) empty_db
      (refl, (refl, tt))

-- A stream of one chunk that breaks off.
abbrev one_chunk : List PeerCursor → List Chunk × Option Text
one_chunk cursors = (
  record {
    peer_machine_id = codes "p";
    lines = record { date = codes "2024-01-02"; line_offset = 3; raw_line = a_line } ∷ [];
  }
      ∷ [],
  some (codes "UNAVAILABLE"),
)

do_pull_moves_cursors_example :
    get_cursor (codes "p") (do_pull example_peer one_chunk example_session).0.db
    ≡ cursor_after
        (lines_of (codes "p") (one_chunk (map peer_cursor example_session.db.sync_state)).0)
        (get_cursor (codes "p") example_session.db)
do_pull_moves_cursors_example =
    do_pull_moves_cursors example_peer one_chunk (codes "p") example_session

do_pull_applies_lines_example :
    tables (do_pull example_peer one_chunk example_session).0.db
    ≡ tables (
        replay_all
          (brought (one_chunk (map peer_cursor example_session.db.sync_state)).0)
          example_session.db)
do_pull_applies_lines_example = do_pull_applies_lines example_peer one_chunk example_session

-- A server that hands on all that the first machine has pushed.
abbrev handing_on : List PeerCursor → List Chunk × Option Text
handing_on cursors = (
  record {
    peer_machine_id = codes "m";
    lines = all_of (do_push example_peer example_session).0.sent;
  }
      ∷ [],
  none,
)

handed_on :
    brought (handing_on (map peer_cursor example_session.db.sync_state)).0
    ≡ raw_lines (all_of (do_push example_peer example_session).0.sent)
unfolding flat_map
handed_on = append-nil (raw_lines (all_of (do_push example_peer example_session).0.sent))

first_cursor : get_cursor (codes "m") empty_db ≡ ([], before_first)
unfolding get_cursor
first_cursor = refl

first_exchange_replays_logs_example :
    tables
      (do_pull (record example_peer { machine_id = codes "p" }) handing_on example_session).0.db
    ≡ tables (replay_all (logged (codes "/l") example_files) empty_db)
first_exchange_replays_logs_example =
    first_exchange_replays_logs example_peer (record example_peer { machine_id = codes "p" })
      handing_on example_session example_session refl (ap (λ c. c.0) first_cursor) pushed_example
      handed_on

run-Ended_example :
    Ended
      (codes "m")
      false
      (error_of example_peer
        (λ time. none)
        one_chunk
        none
        (commit example_peer
          (λ time. none)
          one_chunk
          (marked example_peer (λ time. none) one_chunk none example_session)))
      example_session
      (run example_peer (λ time. none) one_chunk true none example_session)
run-Ended_example = run-Ended example_peer (λ time. none) one_chunk true none example_session

abbrev a_start : Start
a_start = record {
  machine_id = some (codes "m");
  endpoint = some (codes "s");
  force = true;
  is_locked = false;
  handshake = none;
}

-- A session on a database that has just been rebuilt.
abbrev rebuilt_session : Session
rebuilt_session = record example_session {
  db = (rebuild example_files example_paths true true true (file_of example_db)).0;
  saved = (rebuild example_files example_paths true true true (file_of example_db)).0;
}

main-IsConsistent_example :
    IsConsistent (main example_peer (λ time. none) one_chunk a_start rebuilt_session).0.saved
    × ((main example_peer (λ time. none) one_chunk a_start rebuilt_session).0.saved
        ≡ (main example_peer (λ time. none) one_chunk a_start rebuilt_session).0.db)
main-IsConsistent_example =
    main-IsConsistent example_peer (λ time. none) one_chunk a_start rebuilt_session refl
      (rebuild-IsConsistent example_files example_paths true true (file_of example_db))
