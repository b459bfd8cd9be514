-- ===== src/Rebuilder/Run.antt =====
-- `rebuild` and the command line of the rebuilder.
pub mod Laws
use browser_visit_logger.Base.{
  ℕ, nat_eq, Text, Bool, true, false, not, ◌&&◌, ◌||◌, Option, none, some, List, [], ◌∷◌, ◌++◌,
  ◌==◌, text_eq, if◌then◌else◌, map,
}
use browser_visit_logger.Base.Strings.{codes, decimal, join, newline}
use browser_visit_logger.Database.{Db, DbFile, file_of, empty_file, create_tables}
use browser_visit_logger.Rebuilder.Replay.{has_skipped_lines, ReplayStats, replay_logs}
use browser_visit_logger.Files.{Files, content_of, is_dir}
use browser_visit_logger.Paths.{or_default, dirname}
use browser_visit_logger.Rebuilder.Rehydrate.{RehydrateStats, rehydrate_filesystem}
use browser_visit_logger.Host.{ensure_db}
use browser_visit_logger.Rebuilder.Collect.{collect_log_paths}

pub record RebuildStats : Type 0 where
  pub replay : Option ReplayStats
  pub rehydrate : Option RehydrateStats
  pub truncated : Bool

-- `_truncate_rebuildable_tables`: `mover_errors` and `sync_state` stay.
unfoldable pub truncate_rebuildable_tables : DbFile → DbFile
truncate_rebuildable_tables file = record file {
  visits = none;
  read_events = none;
  skimmed_events = none;
  snapshots = none;
}

-- What `replay_logs` reads: the logs in order, with their contents.
unfoldable pub logs_to_replay : Files → Text → Text → List (Text × Text)
logs_to_replay fs log_dir icloud_dir =
    map (λ (date, path). (date, content_of path fs)) (collect_log_paths fs log_dir icloud_dir)

-- The two phases, each run if it is asked for.
abbrev pub replay_phase : Bool → Text → List (Text × Text) → Db → Db × Option ReplayStats
replay_phase true downloads logs db =
    let (db', stats) = replay_logs downloads logs db in (db', some stats)
replay_phase false downloads logs db = (db, none)

abbrev pub rehydrate_phase : Bool → Text → Files → Text → Db → Db × Option RehydrateStats
rehydrate_phase true downloads fs icloud_dir db =
    let done = rehydrate_filesystem downloads fs icloud_dir db in (done.db, some done.stats)
rehydrate_phase false downloads fs icloud_dir db = (db, none)

pub record Paths : Type 0 where
  pub log_dir : Text
  pub icloud_dir : Text
  pub downloads_dir : Text

-- `rebuild`; creating the tables a second time, for `_ensure_snapshots_table`, changes nothing.
unfoldable pub rebuild : Files → Paths → Bool → Bool → Bool → DbFile → Db × RebuildStats
unfolding truncate_rebuildable_tables logs_to_replay
rebuild fs paths do_log do_rehydrate truncate file =
    let cleared = if truncate then truncate_rebuildable_tables file else file in
    let ready = ensure_db paths.downloads_dir cleared in
    let ensured = create_tables paths.downloads_dir (file_of ready) in
    let (replayed, replay) =
      replay_phase do_log paths.downloads_dir (logs_to_replay fs paths.log_dir paths.icloud_dir)
        ensured in
    let (done, rehydrate) =
      rehydrate_phase do_rehydrate paths.downloads_dir fs paths.icloud_dir replayed in
    (done, record { replay = replay; rehydrate = rehydrate; truncated = truncate })

-- The parsed arguments that the run depends on.
pub record Args : Type 0 where
  pub truncate : Bool
  pub log_only : Bool
  pub rehydrate_only : Bool
  pub log_dir : Option Text
  pub db_path : Option Text
  pub source : Option Text
  pub dest : Option Text

-- The check behind the parser: `none` where `p.error` ends the program.
unfoldable pub check_args : Args → Option Args
check_args args = if args.log_only && args.rehydrate_only then none else some args

-- The defaults of host.py and snapshot_mover.py.
pub record Defaults : Type 0 where
  pub log_dir : Text
  pub db_file : Text
  pub downloads_dir : Text
  pub icloud_dir : Text

abbrev pub chosen_paths : Defaults → Args → Paths
chosen_paths d args = record {
  log_dir = or_default args.log_dir d.log_dir;
  icloud_dir = or_default args.dest d.icloud_dir;
  downloads_dir = or_default args.source d.downloads_dir;
}

summary_of_replay : ReplayStats → Text
unfolding decimal
summary_of_replay r = join [] (
    codes "replay: visits="
    ∷ decimal r.visits_inserted
    ∷ codes " of_interest="
    ∷ decimal r.of_interest_set
    ∷ codes " read="
    ∷ decimal r.read_events
    ∷ codes " skimmed="
    ∷ decimal r.skimmed_events
    ∷ codes " errors="
    ∷ decimal r.error_records
    ∷ codes " orphan_actions="
    ∷ decimal r.orphan_actions
    ∷ codes " orphan_results="
    ∷ decimal r.orphan_results
    ∷ codes " malformed="
    ∷ decimal r.malformed_lines
    ∷ [])

summary_of_rehydration : RehydrateStats → Text
unfolding decimal
summary_of_rehydration h = join [] (
    codes "rehydrate: snapshots="
    ∷ decimal h.snapshots_upserted
    ∷ codes " sealed="
    ∷ decimal h.sealed_dirs
    ∷ codes " unsealed="
    ∷ decimal h.unsealed_dirs
    ∷ codes " relocated="
    ∷ decimal h.events_relocated
    ∷ codes " files_without_events="
    ∷ decimal h.files_without_events
    ∷ [])

abbrev part_of : {A : Type 0} → (A → Text) → Option A → List Text
part_of f none = []
part_of f (some a) = f a ∷ []

-- `_print_summary`
unfoldable pub print_summary : RebuildStats → Text
unfolding summary_of_replay summary_of_rehydration join
print_summary stats =
    join (newline ∷ [])
      (part_of summary_of_replay stats.replay ++ part_of summary_of_rehydration stats.rehydrate)

-- The exit code, the text printed on standard output, and the database file.
pub record Outcome : Type 0 where
  pub code : ℕ
  pub printed : Text
  pub left : Option DbFile

abbrev exit_input_error : Option DbFile → Outcome
exit_input_error file = record { code = 1; printed = []; left = file }

abbrev pub skipped : Option ReplayStats → Bool
skipped none = false
skipped (some stats) = has_skipped_lines stats

abbrev finish : Db × RebuildStats → Outcome
finish (db, stats) = record {
  code = if skipped stats.replay then 1 else 0;
  printed = print_summary stats;
  left = some (file_of db);
}

abbrev pub opened : Option DbFile → DbFile
opened none = empty_file
opened (some file) = file

-- `cli` behind the parser. `crash` is what an exception in the connection or in the rebuild leaves of
-- the database file, if there is one; `file` is the database file, if it exists.
unfoldable pub cli : Files → Defaults → Option (Option DbFile) → Args → Option DbFile → Outcome
cli fs d crash args file =
    let paths = chosen_paths d args in
    let do_log = not args.rehydrate_only in
    let do_rehydrate = not args.log_only in
    let parent = or_default (some (dirname (or_default args.db_path d.db_file))) (codes ".") in
    if do_log && not (is_dir paths.log_dir fs)
    then exit_input_error file
    else if not (is_dir parent fs)
    then exit_input_error file
    else elim crash [
      | none ↦ finish (rebuild fs paths do_log do_rehydrate args.truncate (opened file))
      | some left ↦ record { code = 2; printed = []; left = left }
    ]
