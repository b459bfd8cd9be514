-- ===== src/Rebuilder/Rehydrate/Consistency.antt =====
-- Phase 2 keeps the counters in step with the events: it changes directories only.
use browser_visit_logger.Base.{
  ◌≡◌, refl, sym, ◌∙◌, Text, Bool, true, false, List, [], ◌∷◌, text_eq, nat_eq, if◌then◌else◌,
  arith, Bool-cases, inl, inr, All-map,
}
use browser_visit_logger.Host.Counters.{IsCounted, IsConsistent}
use browser_visit_logger.Rebuilder.Rehydrate.{
  Rehydration, relocate, rehydrate_file, rehydrate_files, rehydrate_days, rehydrate_filesystem,
  rehydrate_row, is_passed_over, rehydrate_day, moved_to, filed_in, is_day_dir,
}
use browser_visit_logger.Files.{Files, is_dir, list_dir}
use browser_visit_logger.Database.{Db, Tag, Event, Visit, read, skimmed}
use mathlib.Core.Path.{subst}
use browser_visit_logger.Paths.{path_join}
use browser_visit_logger.Base.Sorting.{sorted}
use browser_visit_logger.Base.Table.{count, update}
use browser_visit_logger.Base.Strings.{text_le}
use browser_visit_logger.Base.Table.Laws.{count-update}
use browser_visit_logger.Host.{same_event, event_of}

IsCounted-relocate :
    (tag : Tag) (downloads date_dir name : Text) (visits : List Visit) (rows : List Event)
    → IsCounted tag visits rows
    → IsCounted tag visits (relocate downloads date_dir name rows)
unfolding relocate
IsCounted-relocate tag downloads date_dir name visits rows c = record {
  unique = λ u t. rw (same (same_event u t) (λ e. refl)) (c.unique u t);
  known = λ u h. same (event_of u) (λ e. refl) ∙ c.known u h;
  counted = All-map _ _ visits (λ v h. h ∙ sym (same (event_of v.url) (λ e. refl))) c.counted;
}
  where
    same :
        (p : Event → Bool)
        → ((e : Event) → p (moved_to date_dir e) ≡ p e)
        → count p (update (filed_in name downloads) (moved_to date_dir) rows) ≡ count p rows
    same p h = count-update p (filed_in name downloads) (moved_to date_dir) h rows

-- Two states of the database with the same visits, and with events that are counted alike.
IsConsistent-parts :
    (db : Db) (reads skims : List Event)
    → IsConsistent db
    → IsCounted read db.visits reads
    → IsCounted skimmed db.visits skims
    → IsConsistent (record db {
      read_events = record db.read_events { rows = reads };
      skimmed_events = record db.skimmed_events { rows = skims };
    })
IsConsistent-parts db reads skims c r s = record {
  visits_unique = c.visits_unique;
  reads = r;
  skims = s;
}

module _ (downloads : Text) where
  pub db-rehydrate_file :
      (date_dir name : Text) (s : Rehydration)
      → (rehydrate_file downloads date_dir name s).db ≡ record s.db {
        read_events = record s.db.read_events {
          rows = relocate downloads date_dir name s.db.read_events.rows;
        };
        skimmed_events = record s.db.skimmed_events {
          rows = relocate downloads date_dir name s.db.skimmed_events.rows;
        };
      }
  unfolding rehydrate_file
  db-rehydrate_file date_dir name s = ground arith

  IsConsistent-rehydrate_file :
      (date_dir name : Text) (s : Rehydration)
      → IsConsistent s.db
      → IsConsistent (rehydrate_file downloads date_dir name s).db
  IsConsistent-rehydrate_file date_dir name s c =
      subst IsConsistent (sym (db-rehydrate_file date_dir name s)) (
        IsConsistent-parts s.db _ _ c
          (IsCounted-relocate read downloads date_dir name s.db.visits _ c.reads)
          (IsCounted-relocate skimmed downloads date_dir name s.db.visits _ c.skims))

  IsConsistent-rehydrate_files :
      (day date_dir : Text) (names : List Text) (s : Rehydration)
      → IsConsistent s.db
      → IsConsistent (rehydrate_files downloads day date_dir names s).db
  unfolding rehydrate_files
  IsConsistent-rehydrate_files day date_dir [] s c = c
  IsConsistent-rehydrate_files day date_dir (name ∷ names) s c =
      IsConsistent-rehydrate_files day date_dir names _ (one (is_passed_over day name))
    where
      one : (b : Bool) → IsConsistent (if b then s else rehydrate_file downloads date_dir name s).db
      one true = c
      one false = IsConsistent-rehydrate_file date_dir name s c

module _ (downloads : Text) (fs : Files) (icloud_dir : Text) where
  IsConsistent-rehydrate_row :
      (day : Text) (s : Rehydration)
      → IsConsistent s.db
      → IsConsistent (rehydrate_row fs icloud_dir day s).db
  unfolding rehydrate_row
  IsConsistent-rehydrate_row day s c = record {
    visits_unique = c.visits_unique;
    reads = c.reads;
    skims = c.skims;
  }

  IsConsistent-rehydrate_days :
      (days : List Text) (s : Rehydration)
      → IsConsistent s.db
      → IsConsistent (rehydrate_days downloads fs icloud_dir days s).db
  unfolding rehydrate_days rehydrate_day
  IsConsistent-rehydrate_days [] s c = c
  IsConsistent-rehydrate_days (day ∷ days) s c =
      IsConsistent-rehydrate_days days _ (one (is_day_dir fs icloud_dir day))
    where
      one :
          (b : Bool)
          → IsConsistent
              (if b
                then rehydrate_files downloads day
                    (path_join icloud_dir day)
                    (sorted text_le (list_dir (path_join icloud_dir day) fs))
                    (rehydrate_row fs icloud_dir day s)
                else s).db
      one true =
          IsConsistent-rehydrate_files downloads day _ _ _ (IsConsistent-rehydrate_row day s c)
      one false = c

  pub IsConsistent-rehydrate_filesystem :
      (db : Db)
      → IsConsistent db
      → IsConsistent (rehydrate_filesystem downloads fs icloud_dir db).db
  unfolding rehydrate_filesystem
  IsConsistent-rehydrate_filesystem db c = elim (Bool-cases (is_dir icloud_dir fs)) [
    | inl h ↦ rw h (IsConsistent-rehydrate_days _ _ c)
    | inr h ↦ rw h c
  ]
