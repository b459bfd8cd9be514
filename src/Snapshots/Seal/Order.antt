-- ===== src/Snapshots/Seal/Order.antt =====
-- A day is marked as sealed only when its manifest stands.
use browser_visit_logger.Base.{
  List, text_eq, false, none, some, Option, Text, ◌∙◌, inl, ◌≡◌, ℕ, inr, ◌⊎◌, refl, arith,
}
use browser_visit_logger.Snapshots.Effects.{
  Env, World, ◌>>◌, Exn, sql_write, sql_read, commit, os_write, os_read, Result, ok, err, os_error,
  sql_error, value_error, handle, continue,
}
use browser_visit_logger.Snapshots.Effects.Rules.{
  Stable, Stable-fs, fs-sql_write, fs-sql_read, fs-os_read, fs-commit, Stable-os_write, Returned,
}
use browser_visit_logger.Snapshots.Seal.{
  mark_if_dated, move_log_if_dated, seal_directory, seal_steps,
}
use browser_visit_logger.Snapshots.Errors.{try_record_error, try_clear_error}
use browser_visit_logger.Database.{Snapshot}
use browser_visit_logger.Files.{Files}
use browser_visit_logger.Snapshots.Manifest.Content.{
  IsManifest, Stands, cleared, write_manifest_file-Stands,
}
use browser_visit_logger.Snapshots.Manifest.Listing.{Lists}
use browser_visit_logger.Paths.{path_join}
use browser_visit_logger.Base.Strings.{codes}
use browser_visit_logger.Snapshots.Manifest.{manifest_filename, write_manifest_file}
use browser_visit_logger.Snapshots.Seal.Apart.{log_ne_manifest}
use browser_visit_logger.Snapshots.Seal.Closed.{
  Closed-write_manifest_file, Closed-try_record_error, Closed-rest, unseen, Unseen-unseen,
}
use browser_visit_logger.Snapshots.Seal.Quiet.{Quiet, quiet-Closed}

-- A read-only manifest stands in the directory, with the rows of the directory's snapshots in the
-- world `start`.
abbrev pub HasManifest : Env → Text → World → World → Type 0
HasManifest env date_subdir start w =
    (rows : List (List Text)) × Lists env.match_by_filename_only date_subdir
      (cleared env date_subdir start.fs) start.db rows
    × IsManifest date_subdir rows w.fs

module _ (env : Env) (date_subdir : Text) where
  -- Whatever is done to the database, the manifest stands.
  pub quiet-IsManifest :
      (rows : List (List Text))
      → Quiet env unseen
          (some (path_join date_subdir manifest_filename))
          (λ w. IsManifest date_subdir rows w.fs)
  quiet-IsManifest rows = record {
    reads = λ g. Stable-fs Q _ (fs-os_read env g);
    writes = λ g spares. Stable-os_write env Q g (λ fs h. spares fs ∙ h);
    queries = λ g. Stable-fs Q _ (fs-sql_read env g);
    statements = λ g same. Stable-fs Q _ (fs-sql_write env g);
    commits = Stable-fs Q _ (fs-commit env);
  }
    where
      Q : Files → Type 0
      Q = IsManifest date_subdir rows

  -- The rule is `P` until the manifest stands.
  module _ {B : Type 0} (view : List Snapshot → B) (P : World → Type 0) (q : Quiet env view none P)
      (date : Option Text) where
    abbrev pub Safe : World → World → Type 0
    Safe start w = P w ⊎ HasManifest env date_subdir start w

    Safe-rest :
        (start : World) (rows : List (List Text)) (v : World)
        → Lists env.match_by_filename_only date_subdir
            (cleared env date_subdir start.fs)
            start.db
            rows
        → IsManifest date_subdir rows v.fs
        → Safe start
            ((do
              move_log_if_dated env date_subdir date
              mark_if_dated env date
              try_clear_error env (codes "seal") date_subdir)
              v).1
    Safe-rest start rows v lists h = inr (
      rows,
      lists,
      (Closed-rest env unseen _ _ (quiet-Closed env unseen _ _ (quiet-IsManifest rows))
            (λ a d. log_ne_manifest a date_subdir d) date_subdir date (Unseen-unseen date)).at
          v h,
    )

    Safe-seal_steps : (w : World) → P w → Safe w (seal_steps env date_subdir date w).1
    unfolding seal_steps
    Safe-seal_steps w p =
        one (write_manifest_file env date_subdir w) (write_manifest_file-Stands env date_subdir w) (
          (Closed-write_manifest_file env view none _ (quiet-Closed env view none P q) date_subdir
              tt).at
            w p)
      where
        one :
            (r : Result ℕ × World)
            → Returned (Stands env date_subdir w) r
            → P r.1
            → Safe w
                (continue
                  (λ _. do
                    move_log_if_dated env date_subdir date
                    mark_if_dated env date
                    try_clear_error env (codes "seal") date_subdir)
                  r).1
        one (ok n, v) (rows, k, lists, h) p = Safe-rest w rows v lists h
        one (err x, v) h p = inl p

    Safe-try_record_error :
        (start : World) (e : Exn)
        → Stable (Safe start) (try_record_error env (codes "seal") date_subdir e)
    Safe-try_record_error start e = record {
      at = λ w. elim [
        | inl p ↦ inl (
            (Closed-try_record_error env view none _ (quiet-Closed env view none P q) _ _ e).at w p)
        | inr (rows, lists, h) ↦ inr (
          rows,
          lists,
          (Closed-try_record_error env unseen _ _
                (quiet-Closed env unseen _ _ (quiet-IsManifest rows)) _ _ e).at
              w h,
        )
      ];
    }

    pub Safe-seal_directory :
        (w : World) → P w → Safe w (seal_directory env date_subdir false date w).1
    unfolding seal_directory
    Safe-seal_directory w p = one (seal_steps env date_subdir date w) (Safe-seal_steps w p)
      where
        one :
            (r : Result (Unit {0}) × World)
            → Safe w r.1
            → Safe w (handle (λ e. try_record_error env (codes "seal") date_subdir e) r).1
        one (ok a, v) h = h
        one (err (os_error errno text), v) h = (Safe-try_record_error w _).at v h
        one (err (sql_error e), v) h = (Safe-try_record_error w _).at v h
        one (err (value_error text), v) h = h

-- The rows of `snapshots` are those of the world `start`, or a manifest stands in the directory.
abbrev pub IsSafe : Env → Text → World → World → Type 0
IsSafe env date_subdir start w =
    (w.db.snapshots ≡ start.db.snapshots) ⊎ HasManifest env date_subdir start w

module _ (env : Env) (before : List Snapshot) where
  quiet_rows : Quiet env (λ rows. rows) none (λ w. w.db.snapshots ≡ before)
  unfolding os_read os_write sql_read sql_write commit
  quiet_rows = record {
    reads = λ g. record { at = λ w h. ground arith };
    writes = λ g s. record { at = λ w h. ground arith };
    queries = λ g. record { at = λ w h. ground arith };
    statements = λ g same. record { at = λ w h. ground (arith, same w.db) };
    commits = record { at = λ w h. ground arith };
  }

-- Whichever calls and statements fail while a directory is sealed, the rows of `snapshots` stay as
-- they were, or the directory holds a read-only manifest: the header and then, by the files and the
-- tables before the sealing, a row for each file of the directory that has a snapshot's name and an
-- event, no row for anything else, and each row on one line of its own.
pub seal_directory_manifest_first :
    (env : Env) (date_subdir : Text) (date : Option Text) (w : World)
    → IsSafe env date_subdir w (seal_directory env date_subdir false date w).1
seal_directory_manifest_first env date_subdir date w =
    Safe-seal_directory env date_subdir (λ rows. rows) _ (quiet_rows env w.db.snapshots) date w refl
