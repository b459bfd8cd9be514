-- ===== src/Tests/Snapshots.antt =====
-- Runs of the snapshot library at small inputs, with calls that fail.
use browser_visit_logger.Database.{MoverError}
use browser_visit_logger.Snapshots.Errors.{error_key}
use browser_visit_logger.Snapshots.Errors.Healing.{UniqueKeys, Healed, reconcile_heals}
use browser_visit_logger.Base.{
  [], ◌∷◌, text_eq, nat_eq, false, none, some, if◌then◌else◌, ◌==◌, ◌≡◌, leb, refl,
}
use browser_visit_logger.Snapshots.Effects.{World, Env, operational, ok}
use browser_visit_logger.Snapshots.Manifest.{Info, lookup_in}
use browser_visit_logger.Database.{Db, Event}
use browser_visit_logger.Snapshots.Seal.{seal_directory}
use browser_visit_logger.Tests.{example_files, empty_db, example_db, day}
use browser_visit_logger.Base.Strings.{codes}
use browser_visit_logger.Base.Table.{first}
use browser_visit_logger.Host.{new_visit, insert_visit, record_event}
use browser_visit_logger.Snapshots.Seal.Safety.{seal_directory_never_raises}
use browser_visit_logger.Base.{true, List, length, Text}
use browser_visit_logger.Base.Dict.{get}
use browser_visit_logger.Base.Strings.{text_lt}
use browser_visit_logger.Base.Sorting.{sorted}
use browser_visit_logger.Files.{Files, list_dir, path_exists, is_file, file, dir}
use browser_visit_logger.Names.{is_snapshot_name, is_date_dir}
use browser_visit_logger.Paths.{path_join, is_abs, basename, normpath}
use browser_visit_logger.Snapshots.Effects.{os_read, os_write, sql_read, sql_write, commit}
use browser_visit_logger.Snapshots.Errors.{reconcile_dir_scoped_errors, delete_keys}
use browser_visit_logger.Snapshots.Manifest.{
  write_manifest_file, build_manifest_rows, sort_files, lookup_event, write_lines, snapshot_files,
  is_candidate, expected_log,
}
use browser_visit_logger.Snapshots.Manifest.Content.{cleared, IsManifest, write_manifest_file_lem}
use browser_visit_logger.Snapshots.Manifest.Listing.{Lists}
use browser_visit_logger.Snapshots.Orphans.{reconcile_log}
use browser_visit_logger.Snapshots.Orphans.Merge.{IsKept, reconcile_log-IsKept}
use browser_visit_logger.Snapshots.Seal.Order.{IsSafe, seal_directory_manifest_first}

-- The fifth call that reads or changes a file fails, and each later statement of the database does.
abbrev pub failing_env : Env
failing_env = record {
  os_fault = λ n. if n == 5 then some (28, codes "No space left on device") else none;
  db_fault = λ n. if leb 5 n then some (operational (codes "database is locked")) else none;
  now_iso = λ n. codes "now";
  today_utc = codes "2024-01-03";
  immediate_errnos = 28 ∷ [];
  match_by_filename_only = false;
  log_dir = codes "/l";
  icloud_snapshots_dir = codes "/a";
}

abbrev pub example_world : World
example_world = record { fs = example_files; db = example_db; saved = example_db; tick = 0 }

seal_directory_never_raises_example :
    (seal_directory failing_env (codes "/a/2024-01-02") false (some day) example_world).0 ≡ ok tt
seal_directory_never_raises_example =
    seal_directory_never_raises failing_env (codes "/a/2024-01-02") false (some day) example_world

abbrev odd_info : Info
odd_info = record {
  tag = codes "read";
  url = codes "u";
  timestamp = codes "t";
  title = codes "a\tb\nc";
}

abbrev odd_event : Event
odd_event = record {
  url = codes "u";
  timestamp = codes "t";
  filename = codes "f";
  directory = codes "/a";
}

abbrev odd_db : Db
odd_db = record empty_db {
  visits = new_visit (codes "t") (codes "u") (codes "a\tb\nc") ∷ [];
  read_events = record { rows = odd_event ∷ []; default_directory = [] };
}

seal_directory_manifest_first_example :
    IsSafe failing_env
      (codes "/a/2024-01-02")
      example_world
      (seal_directory failing_env (codes "/a/2024-01-02") false (some day) example_world).1
seal_directory_manifest_first_example =
    seal_directory_manifest_first failing_env (codes "/a/2024-01-02") (some day) example_world

-- Nothing fails, and events are found by the file name alone.
abbrev calm_env : Env
calm_env = record failing_env {
  os_fault = λ n. none;
  db_fault = λ n. none;
  match_by_filename_only = true;
}

manifest_test :
    write_manifest_file calm_env (codes "/a/2024-01-02") example_world
    ≡ (ok 1, (write_manifest_file calm_env (codes "/a/2024-01-02") example_world).1)
unfolding write_manifest_file build_manifest_rows os_read os_write sql_read sql_write commit
    reconcile_dir_scoped_errors delete_keys sort_files lookup_event write_lines path_exists
    path_join list_dir is_snapshot_name get first text_eq nat_eq is_abs lookup_in sorted text_lt
    snapshot_files is_candidate expected_log is_date_dir basename normpath is_file record_event
    insert_visit
manifest_test = refl

write_manifest_file_lem_example :
    (rows : List (List Text)) × (length rows ≡ 1)
    × Lists true
        (codes "/a/2024-01-02")
        (cleared calm_env (codes "/a/2024-01-02") example_files)
        example_db
        rows
    × IsManifest
        (codes "/a/2024-01-02")
        rows
        (write_manifest_file calm_env (codes "/a/2024-01-02") example_world).1.fs
write_manifest_file_lem_example =
    write_manifest_file_lem calm_env (codes "/a/2024-01-02") example_world
      (write_manifest_file calm_env (codes "/a/2024-01-02") example_world).1 1 manifest_test

-- The day's log is archived, and more of it stands in the log directory.
abbrev late_files : Files
late_files =
    (codes "/a", dir)
    ∷ (codes "/a/2024-01-02", dir)
    ∷ (codes "/a/2024-01-02/browser-visits-2024-01-02.log", file (codes "x\n") 0o444)
    ∷ (codes "/l", dir)
    ∷ (codes "/l/browser-visits-2024-01-02.log", file (codes "y\n") 0o644)
    ∷ []

abbrev late_world : World
late_world = record example_world { fs = late_files }

reconcile_log-IsKept_example :
    IsKept
      (path_join (codes "/l") (codes "browser-visits-2024-01-02.log"))
      (path_join (path_join (codes "/a") day) (codes "browser-visits-2024-01-02.log"))
      (codes "y\n")
      (codes "x\n")
      (reconcile_log failing_env (codes "browser-visits-2024-01-02.log") day late_world).1.fs
unfolding get path_join is_abs text_eq nat_eq
reconcile_log-IsKept_example =
    reconcile_log-IsKept failing_env (codes "browser-visits-2024-01-02.log") day (codes "y\n")
      (codes "x\n") 0o644 0o444 late_world refl refl refl

-- A stray that is gone, and one that is still there.
abbrev stray_error : Text → MoverError
stray_error target = record {
  key = error_key (codes "orphan_file") target;
  operation = codes "orphan_file";
  target = target;
  message = codes "m";
  first_seen = codes "t";
  last_seen = codes "t";
  attempts = 1;
  notified = 0;
  immediate = 1;
}

abbrev stray_db : Db
stray_db = record empty_db {
  mover_errors = stray_error (codes "/a/d/x") ∷ stray_error (codes "/a/d/y") ∷ [];
}

abbrev stray_world : World
stray_world = record { fs = []; db = stray_db; saved = stray_db; tick = 0 }

stray_world-UniqueKeys : UniqueKeys stray_db.mover_errors
unfolding text_eq
stray_world-UniqueKeys = (refl, (refl, tt))

reconcile_heals_example :
    Healed failing_env (codes "orphan_file") (codes "/a/d") (codes "/a/d/y" ∷ []) stray_world (
      reconcile_dir_scoped_errors failing_env
        (codes "orphan_file")
        (codes "/a/d")
        (codes "/a/d/y" ∷ [])
        stray_world)
reconcile_heals_example =
    reconcile_heals failing_env (codes "orphan_file") (codes "/a/d") (codes "/a/d/y" ∷ [])
      stray_world stray_world-UniqueKeys
