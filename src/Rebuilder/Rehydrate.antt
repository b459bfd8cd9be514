-- ===== src/Rebuilder/Rehydrate.antt =====
-- Phase 2: `rehydrate_filesystem`.
pub mod Sealed
pub mod Relocation
pub mod Consistency
use browser_visit_logger.Base.{
  ℕ, nat_eq, ◌+◌, Text, Bool, true, false, not, ◌&&◌, ◌||◌, List, [], ◌∷◌, ◌++◌, ◌==◌, text_eq,
  if◌then◌else◌, ltb,
}
use browser_visit_logger.Base.Table.{count, update, upsert}
use browser_visit_logger.Files.{Files, path_exists, is_dir, list_dir}
use browser_visit_logger.Names.{is_date_dir, log_filename_for, is_snapshot_name}
use browser_visit_logger.Database.{Db, Snapshot, Event}
use browser_visit_logger.Base.Strings.{codes, text_le}
use browser_visit_logger.Paths.{path_join}
use browser_visit_logger.Base.Sorting.{sorted}

pub record RehydrateStats : Type 0 where
  pub snapshots_upserted : ℕ
  pub sealed_dirs : ℕ
  pub unsealed_dirs : ℕ
  pub events_relocated : ℕ
  pub files_without_events : ℕ

abbrev pub nothing_rehydrated : RehydrateStats
nothing_rehydrated = record {
  snapshots_upserted = 0;
  sealed_dirs = 0;
  unsealed_dirs = 0;
  events_relocated = 0;
  files_without_events = 0;
}

-- `WHERE filename = ? AND directory = ?`
abbrev pub filed_in : Text → Text → Event → Bool
filed_in name directory e = e.filename == name && e.directory == directory

abbrev pub moved_to : Text → Event → Event
moved_to directory e = record e { directory = directory }

-- The UPDATE of one events table.
unfoldable pub relocate : Text → Text → Text → List Event → List Event
unfolding update text_eq
relocate downloads date_dir name rows = update (filed_in name downloads) (moved_to date_dir) rows

unfoldable pub note_sealed : Text → ℕ → List Snapshot → List Snapshot
unfolding upsert text_eq
note_sealed date flag =
    upsert (λ r. r.date == date) (λ r. record r { sealed = flag })
      (record { date = date; sealed = flag })

-- The connection and the statistics.
pub record Rehydration : Type 0 where
  pub db : Db
  pub stats : RehydrateStats

-- The manifest, the day's log and files with other names are passed over.
abbrev pub is_passed_over : Text → Text → Bool
is_passed_over day name =
    name == codes "MANIFEST.tsv" || name == log_filename_for day || not (is_snapshot_name name)

module _ (fs : Files) (icloud_dir : Text) where
  abbrev pub sealed_flag : Text → ℕ
  sealed_flag day =
      if path_exists (path_join (path_join icloud_dir day) (codes "MANIFEST.tsv")) fs then 1 else 0

  abbrev pub is_day_dir : Text → Bool
  is_day_dir entry = is_date_dir entry && is_dir (path_join icloud_dir entry) fs

  -- The `snapshots` row of a day, and the counts of the days.
  unfoldable pub rehydrate_row : Text → Rehydration → Rehydration
  unfolding note_sealed
  rehydrate_row entry s =
      let stats = record s.stats { snapshots_upserted = s.stats.snapshots_upserted + 1 } in
      record {
        db = record s.db { snapshots = note_sealed entry (sealed_flag entry) s.db.snapshots };
        stats =
            if sealed_flag entry == 1
            then record stats { sealed_dirs = stats.sealed_dirs + 1 }
            else record stats { unsealed_dirs = stats.unsealed_dirs + 1 };
      }

module _ (downloads : Text) where
  -- A snapshot file: the events that still point to Downloads are moved, in both tables.
  unfoldable pub rehydrate_file : Text → Text → Rehydration → Rehydration
  unfolding relocate count
  rehydrate_file date_dir name s =
      let here =
        count (filed_in name downloads) s.db.read_events.rows
        + count (filed_in name downloads) s.db.skimmed_events.rows in
      let db = record s.db {
        read_events = record s.db.read_events {
          rows = relocate downloads date_dir name s.db.read_events.rows;
        };
        skimmed_events = record s.db.skimmed_events {
          rows = relocate downloads date_dir name s.db.skimmed_events.rows;
        };
      } in
      if ltb 0 here
      then record s {
        db = db;
        stats = record s.stats { events_relocated = s.stats.events_relocated + here };
      }
      else record s {
        db = db;
        stats = record s.stats { files_without_events = s.stats.files_without_events + 1 };
      }

  unfoldable pub rehydrate_files : Text → Text → List Text → Rehydration → Rehydration
  unfolding rehydrate_file
  rehydrate_files day date_dir [] s = s
  rehydrate_files day date_dir (name ∷ names) s =
      rehydrate_files day date_dir names
        (if is_passed_over day name then s else rehydrate_file date_dir name s)

module _ (downloads : Text) (fs : Files) (icloud_dir : Text) where
  unfoldable pub rehydrate_day : Text → Rehydration → Rehydration
  rehydrate_day entry s =
      let date_dir = path_join icloud_dir entry in
      if is_day_dir fs icloud_dir entry
      then rehydrate_files downloads entry date_dir (sorted text_le (list_dir date_dir fs))
          (rehydrate_row fs icloud_dir entry s)
      else s

  unfoldable pub rehydrate_days : List Text → Rehydration → Rehydration
  unfolding rehydrate_day
  rehydrate_days [] s = s
  rehydrate_days (entry ∷ entries) s = rehydrate_days entries (rehydrate_day entry s)

  unfoldable pub rehydrate_filesystem : Db → Rehydration
  rehydrate_filesystem db =
      let start : Rehydration = record { db = db; stats = nothing_rehydrated } in
      if is_dir icloud_dir fs
      then rehydrate_days (sorted text_le (list_dir icloud_dir fs)) start
      else start
