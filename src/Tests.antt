-- ===== src/Tests.antt =====
-- Runs of the program at small inputs.
pub mod Archive
pub mod Cli
pub mod Sealer
pub mod Snapshots
pub mod Sync
pub mod Cloud
pub mod Tools
use mathlib.Core.List.{flat_map}
use browser_visit_logger.Base.{
  Text, List, [], ◌∷◌, text_eq, nat_eq, true, false, none, some, ◌++◌, ◌≡◌, refl, ◌≢◌, arith, ◌+◌,
  All,
}
use browser_visit_logger.Database.{Db, Event, Events, read, file_of}
use browser_visit_logger.Names.{is_snapshot_name, is_date_dir, consume, at_end}
use browser_visit_logger.Host.Counters.{IsConsistent, IsConsistent-tag_visit}
use browser_visit_logger.Paths.{path_join, is_abs}
use browser_visit_logger.Files.{Files, dir, is_dir, file, list_dir}
use browser_visit_logger.Rebuilder.Replay.Accounting.{
  settled, files_weight, replay_logs_accounts_for_every_line,
}
use browser_visit_logger.Rebuilder.Replay.{replay_logs}
use browser_visit_logger.Base.Strings.{codes}
use browser_visit_logger.Rebuilder.Run.{Paths, rebuild}
use browser_visit_logger.Host.{record_event, insert_visit, tag_visit}
use browser_visit_logger.Rebuilder.Rehydrate.{is_passed_over, is_day_dir, rehydrate_filesystem}
use browser_visit_logger.Base.Dict.{get}
use browser_visit_logger.Rebuilder.Replay.Pairing.{
  apply_all, paired, all_lines, note_days, replay_logs_applies_paired_actions,
}
use browser_visit_logger.Rebuilder.Run.Laws.{rebuild-IsConsistent, untouched, rebuild-untouched}
use browser_visit_logger.Host.Repeats.{record_event_again, first_visit_wins}
use browser_visit_logger.Base.Sorting.{IsSorted}
use browser_visit_logger.Rebuilder.Rehydrate.Relocation.{
  left_behind, movable, rehydrate_leaves_nothing_behind, events_relocated_lem,
}
use browser_visit_logger.Rebuilder.Rehydrate.Sealed.{IsNoted, rehydrate_notes_every_day}
use browser_visit_logger.Rebuilder.Collect.{found_le, discovered}
use browser_visit_logger.Rebuilder.Collect.Order.{IsLog, discovered_in_order}
use browser_visit_logger.Base.Table.{exists}

abbrev pub id_a : Text
id_a = codes "0123456789abcdef0123456789abcdef"

abbrev pub day : Text
day = codes "2024-01-02"

abbrev pub snapshot_name : Text
snapshot_name = codes "2024-01-02T03-04-05Z-0123456789abcdef.mhtml"

abbrev pub url_a : Text
url_a = codes "u"

abbrev pub time_a : Text
time_a = codes "t"

abbrev pub log_content : Text
log_content = id_a ++ (codes "\tt\tu\ttitle\tread\tf\n" ++ (id_a ++ codes "\tsuccess\n"))

abbrev pub example_files : Files
example_files =
    (codes "/a", dir)
    ∷ (codes "/a/2024-01-02", dir)
    ∷ (codes "/a/2024-01-02/2024-01-02T03-04-05Z-0123456789abcdef.mhtml", file (codes "x") 0o644)
    ∷ (codes "/l", dir)
    ∷ (codes "/l/browser-visits-2024-01-02.log", file log_content 0o644)
    ∷ []

abbrev pub example_event : Event
example_event = record {
  url = url_a;
  timestamp = time_a;
  filename = snapshot_name;
  directory = codes "downloads";
}

abbrev pub no_events : Events
no_events = record { rows = []; default_directory = codes "downloads" }

abbrev pub empty_db : Db
empty_db = record {
  visits = [];
  read_events = no_events;
  skimmed_events = no_events;
  snapshots = [];
  mover_errors = [];
  sync_state = [];
}

abbrev pub example_db : Db
example_db = record_event read example_event (insert_visit time_a url_a (codes "title") empty_db)

abbrev pub example_paths : Paths
example_paths = record {
  log_dir = codes "/l";
  icloud_dir = codes "/a";
  downloads_dir = codes "downloads";
}

rebuild-IsConsistent_example :
    IsConsistent (rebuild example_files example_paths true true true (file_of example_db)).0
rebuild-IsConsistent_example =
    rebuild-IsConsistent example_files example_paths true true (file_of example_db)

abbrev pub example_logs : List (Text × Text)
example_logs = (day, log_content) ∷ []

replay_logs_applies_paired_actions_example :
    (replay_logs (codes "downloads") example_logs empty_db).0
    ≡ record (apply_all (codes "downloads") (paired [] (all_lines example_logs)) empty_db) {
      snapshots = note_days example_logs [];
    }
replay_logs_applies_paired_actions_example =
    replay_logs_applies_paired_actions (codes "downloads") example_logs empty_db

replay_logs_accounts_for_every_line_example :
    settled (replay_logs (codes "downloads") example_logs empty_db).1 ≡ files_weight example_logs
replay_logs_accounts_for_every_line_example =
    replay_logs_accounts_for_every_line (codes "downloads") example_logs empty_db

example_moves :
    (d : Text)
    → is_day_dir example_files (codes "/a") d ≡ true
    → path_join (codes "/a") d ≢ codes "downloads"
unfolding path_join is_abs text_eq nat_eq
example_moves [] h = ground arith
example_moves (c ∷ d) h = ground arith

example_snapshot : is_passed_over day snapshot_name ≡ false
unfolding is_snapshot_name text_eq nat_eq
example_snapshot = refl

example_is_day_dir : is_day_dir example_files (codes "/a") day ≡ true
unfolding is_date_dir is_dir path_join get text_eq nat_eq consume
example_is_day_dir = refl

rehydrate_leaves_nothing_behind_example :
    movable
      (codes "downloads")
      snapshot_name
      (rehydrate_filesystem (codes "downloads") example_files (codes "/a") example_db).db
    ≡ 0
unfolding is_dir get path_join list_dir is_abs text_eq nat_eq
rehydrate_leaves_nothing_behind_example =
    rehydrate_leaves_nothing_behind (codes "downloads") example_files (codes "/a") example_moves day
      snapshot_name example_is_day_dir refl example_snapshot example_db refl refl

IsConsistent-tag_visit_example :
    IsConsistent
      (tag_visit
        (codes "downloads")
        url_a
        (codes "read")
        time_a
        (codes "f")
        (rebuild example_files example_paths true true true (file_of example_db)).0).0
IsConsistent-tag_visit_example =
    IsConsistent-tag_visit (codes "downloads") url_a (codes "read") time_a (codes "f")
      (rebuild example_files example_paths true true true (file_of example_db)).0
      (rebuild-IsConsistent example_files example_paths true true (file_of example_db))

first_visit_wins_example :
    insert_visit
      (codes "later")
      url_a
      (codes "other")
      (insert_visit time_a url_a (codes "title") empty_db)
    ≡ insert_visit time_a url_a (codes "title") empty_db
first_visit_wins_example =
    first_visit_wins time_a url_a (codes "title") (codes "later") (codes "other") empty_db
