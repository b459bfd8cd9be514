-- ===== src/Rebuilder/Run/Laws.antt =====
-- What a rebuild leaves in the database, and the exit codes.
use browser_visit_logger.Base.{
  ◌≡◌, refl, ◌∙◌, Text, Bool, true, false, List, [], ◌∷◌, text_eq, nat_eq, arith, Bool-cases,
  if◌then◌else◌, ap, Option, inl, inr, not, none, some,
}
use browser_visit_logger.Host.Counters.{IsConsistent}
use browser_visit_logger.Database.{
  Db, MoverError, SyncState, create_tables, DbFile, file_of, read, Tag, skimmed, Event,
}
use browser_visit_logger.Files.{Files, is_dir, list_dir}
use browser_visit_logger.Base.Table.{count}
use browser_visit_logger.Rebuilder.Run.{
  Paths, rebuild, cli, rehydrate_phase, replay_phase, Defaults, Args, chosen_paths, opened, skipped,
}
use browser_visit_logger.Rebuilder.Rehydrate.{
  rehydrate_days, rehydrate_files, rehydrate_filesystem, rehydrate_day, Rehydration, rehydrate_row,
  rehydrate_file, is_passed_over, is_day_dir,
}
use browser_visit_logger.Host.{record_event, insert_event, tag_visit, insert_visit}
use browser_visit_logger.Rebuilder.Replay.Pairing.{apply_all, replay_logs_applies_paired_actions}
use browser_visit_logger.Paths.{basename, path_join}
use browser_visit_logger.Rebuilder.Rehydrate.Consistency.{
  IsConsistent-rehydrate_filesystem, db-rehydrate_file,
}
use browser_visit_logger.Rebuilder.Lines.{Action}
use browser_visit_logger.Rebuilder.Replay.{apply_action}
use browser_visit_logger.Rebuilder.Replay.Consistency.{IsConsistent-replay_logs}
use browser_visit_logger.Base.Sorting.{sorted}
use browser_visit_logger.Base.Strings.{text_le}

IsConsistent-empty :
    (db : Db)
    → db.visits ≡ []
    → db.read_events.rows ≡ []
    → db.skimmed_events.rows ≡ []
    → IsConsistent db
unfolding count
IsConsistent-empty db v r s = record {
  visits_unique = λ u. rw v (omega arith);
  reads = rw (v, r) (record { unique = λ u t. omega arith; known = λ u h. refl; counted = tt });
  skims = rw (v, s) (record { unique = λ u t. omega arith; known = λ u h. refl; counted = tt });
}

module _ (fs : Files) (paths : Paths) where
  IsConsistent-phases :
      (do_log do_rehydrate : Bool) (logs : List (Text × Text)) (db : Db)
      → IsConsistent db
      → IsConsistent
          (rehydrate_phase do_rehydrate paths.downloads_dir fs paths.icloud_dir
            (replay_phase do_log paths.downloads_dir logs db).0).0
  IsConsistent-phases true true logs db c =
      IsConsistent-rehydrate_filesystem _ fs _ _ (IsConsistent-replay_logs _ logs db c)
  IsConsistent-phases true false logs db c = IsConsistent-replay_logs _ logs db c
  IsConsistent-phases false true logs db c = IsConsistent-rehydrate_filesystem _ fs _ _ c
  IsConsistent-phases false false logs db c = c

  -- A rebuild that truncates ends with counters that agree with the events, whatever the file held, the
  -- logs say and the archive holds, and whichever phases run.
  pub rebuild-IsConsistent :
      (do_log do_rehydrate : Bool) (file : DbFile)
      → IsConsistent (rebuild fs paths do_log do_rehydrate true file).0
  unfolding rebuild create_tables
  rebuild-IsConsistent do_log do_rehydrate file =
      IsConsistent-phases do_log do_rehydrate _ _ (IsConsistent-empty _ refl refl refl)

-- The tables that a rebuild does not write.
abbrev pub untouched : Db → List MoverError × List SyncState
untouched db = (db.mover_errors, db.sync_state)

module _ (downloads : Text) where
  untouched-record_event :
      (tag : Tag) (e : Event) (db : Db) → untouched (record_event tag e db) ≡ untouched db
  unfolding record_event
  untouched-record_event read e db = ground arith
  untouched-record_event skimmed e db = ground arith

  untouched-insert_event :
      (tag : Tag) (url timestamp filename : Text) (db : Db)
      → untouched (insert_event downloads tag url timestamp filename db).0 ≡ untouched db
  unfolding insert_event
  untouched-insert_event tag url timestamp filename db = ground (
    arith,
    untouched-record_event tag
        (record {
          url = url;
          timestamp = timestamp;
          filename = basename filename;
          directory = downloads;
        })
        db,
  )

  untouched-tag_visit :
      (url tag timestamp filename : Text) (db : Db)
      → untouched (tag_visit downloads url tag timestamp filename db).0 ≡ untouched db
  unfolding tag_visit
  untouched-tag_visit url tag timestamp filename db = ground (
    arith,
    untouched-insert_event read url timestamp filename db,
    untouched-insert_event skimmed url timestamp filename db,
  )

  untouched-apply_all :
      (acts : List Action) (db : Db) → untouched (apply_all downloads acts db) ≡ untouched db
  unfolding apply_all insert_visit
  untouched-apply_all [] db = refl
  untouched-apply_all (a ∷ acts) db =
      untouched-apply_all acts (apply_action downloads a db)
      ∙ ground (
        arith,
        untouched-tag_visit a.url a.tag a.timestamp a.filename
            (insert_visit a.timestamp a.url a.title db),
      )

  untouched-rehydrate_files :
      (day date_dir : Text) (names : List Text) (s : Rehydration)
      → untouched (rehydrate_files downloads day date_dir names s).db ≡ untouched s.db
  unfolding rehydrate_files
  untouched-rehydrate_files day date_dir [] s = refl
  untouched-rehydrate_files day date_dir (name ∷ names) s =
      untouched-rehydrate_files day date_dir names _ ∙ one (is_passed_over day name)
    where
      one :
          (b : Bool)
          → untouched (if b then s else rehydrate_file downloads date_dir name s).db
            ≡ untouched s.db
      one true = refl
      one false = ap untouched (db-rehydrate_file downloads date_dir name s)

  untouched-rehydrate_days :
      (fs : Files) (icloud_dir : Text) (days : List Text) (s : Rehydration)
      → untouched (rehydrate_days downloads fs icloud_dir days s).db ≡ untouched s.db
  unfolding rehydrate_days rehydrate_day rehydrate_row
  untouched-rehydrate_days fs icloud_dir [] s = refl
  untouched-rehydrate_days fs icloud_dir (day ∷ days) s =
      untouched-rehydrate_days fs icloud_dir days _ ∙ one (is_day_dir fs icloud_dir day)
    where
      one :
          (b : Bool)
          → untouched
              (if b
                then rehydrate_files downloads day
                    (path_join icloud_dir day)
                    (sorted text_le (list_dir (path_join icloud_dir day) fs))
                    (rehydrate_row fs icloud_dir day s)
                else s).db
            ≡ untouched s.db
      one true = untouched-rehydrate_files day _ _ (rehydrate_row fs icloud_dir day s)
      one false = refl

  untouched-rehydrate_filesystem :
      (fs : Files) (icloud_dir : Text) (db : Db)
      → untouched (rehydrate_filesystem downloads fs icloud_dir db).db ≡ untouched db
  unfolding rehydrate_filesystem
  untouched-rehydrate_filesystem fs icloud_dir db = elim (Bool-cases (is_dir icloud_dir fs)) [
    | inl h ↦ rw h (untouched-rehydrate_days fs icloud_dir _ _)
    | inr h ↦ rw h refl
  ]

module _ (fs : Files) (paths : Paths) where
  untouched-phases :
      (do_log do_rehydrate : Bool) (logs : List (Text × Text)) (db : Db)
      → untouched
          (rehydrate_phase do_rehydrate paths.downloads_dir fs paths.icloud_dir
            (replay_phase do_log paths.downloads_dir logs db).0).0
        ≡ untouched db
  untouched-phases true true logs db =
      untouched-rehydrate_filesystem _ fs _ _
      ∙ ap untouched (replay_logs_applies_paired_actions _ logs db)
      ∙ untouched-apply_all _ _ db
  untouched-phases true false logs db =
      ap untouched (replay_logs_applies_paired_actions _ logs db) ∙ untouched-apply_all _ _ db
  untouched-phases false true logs db = untouched-rehydrate_filesystem _ fs _ _
  untouched-phases false false logs db = refl

  -- A rebuild leaves the rows of `mover_errors` and `sync_state` as they were, also when it truncates.
  pub rebuild-untouched :
      (do_log do_rehydrate truncate : Bool) (db : Db)
      → untouched (rebuild fs paths do_log do_rehydrate truncate (file_of db)).0 ≡ untouched db
  unfolding rebuild create_tables
  rebuild-untouched do_log do_rehydrate true db = untouched-phases do_log do_rehydrate _ _
  rebuild-untouched do_log do_rehydrate false db = untouched-phases do_log do_rehydrate _ _

-- A run that exits with 0 has met no exception, has skipped no line of the logs, and leaves the rebuilt
-- database.
pub cli_exit_codes :
    (fs : Files) (d : Defaults) (crash : Option (Option DbFile)) (args : Args)
    (file : Option DbFile)
    → (cli fs d crash args file).code ≡ 0
    → let result =
        rebuild fs
          (chosen_paths d args)
          (not args.rehydrate_only)
          (not args.log_only)
          args.truncate
          (opened file) in
      (crash ≡ none)
      × (skipped result.1.replay ≡ false)
      × ((cli fs d crash args file).left ≡ some (file_of result.0))
unfolding cli
cli_exit_codes fs d crash args file h = ground arith
