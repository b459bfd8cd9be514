-- ===== src/Snapshots/Seal.antt =====
-- `_seal_directory` and `_move_log_into_sealed_dir`.
pub mod Safety
pub mod Apart
pub mod Order
pub mod Quiet
pub mod Closed
use browser_visit_logger.Base.{
  ℕ, nat_eq, ◌+◌, Text, Bool, true, false, not, Option, none, some, List, [], ◌∷◌, ◌++◌, ◌==◌,
  text_eq, if◌then◌else◌,
}
use browser_visit_logger.Base.Strings.{codes}
use browser_visit_logger.Base.Table.{upsert}
use browser_visit_logger.Database.{Snapshot, Db}
use browser_visit_logger.Names.{log_filename_for}
use browser_visit_logger.Snapshots.Effects.{
  Exn, ◌>>=◌, ◌>>◌, pure, Io, Env, ok, sql_write, handle, commit, os_write,
}
use browser_visit_logger.Paths.{path_join}
use browser_visit_logger.Files.{Files, path_exists}
use browser_visit_logger.Snapshots.Manifest.{write_manifest_file, chmod}
use browser_visit_logger.Base.Dict.{get, put, pop}
use browser_visit_logger.Snapshots.Errors.{try_clear_error, try_record_error}

-- `shutil.move(src, dst)` of a file
abbrev pub move_file : Text → Text → Files → Files
move_file src dst fs = elim (get src fs) [ none ↦ fs | some node ↦ put dst node (pop src fs) ]

-- `INSERT … ON CONFLICT(date) DO UPDATE SET sealed = 1`
unfoldable pub mark_sealed : Text → List Snapshot → List Snapshot
unfolding upsert text_eq
mark_sealed date =
    upsert (λ r. r.date == date) (λ r. record r { sealed = 1 }) (record { date = date; sealed = 1 })

module _ (env : Env) where
  -- `_ensure_snapshots_table` and `_ensure_mover_errors_table` run the schema's script and commit; the
  -- tables of the connection exist, so it creates none.
  unfoldable pub ensure_tables : Io (Unit {0})
  ensure_tables = do sql_write env (λ db. db); commit env

  -- `_move_log_into_sealed_dir`
  unfoldable pub move_log_into_sealed_dir : Text → Text → Io (Unit {0})
  move_log_into_sealed_dir date_subdir date w =
      let src = path_join env.log_dir (log_filename_for date) in
      let dst = path_join date_subdir (log_filename_for date) in
      (if path_exists src w.fs
          then (do os_write env (move_file src dst); os_write env (chmod dst 0o444))
          else pure tt)
        w

  unfoldable pub move_log_if_dated : Text → Option Text → Io (Unit {0})
  move_log_if_dated date_subdir none = pure tt
  move_log_if_dated date_subdir (some date) = move_log_into_sealed_dir date_subdir date

  unfoldable pub mark_if_dated : Option Text → Io (Unit {0})
  mark_if_dated none = pure tt
  mark_if_dated (some date) = do
    sql_write env (λ db. record db { snapshots = mark_sealed date db.snapshots })
    commit env

  -- The body of the `try`.
  unfoldable pub seal_steps : Text → Option Text → Io (Unit {0})
  seal_steps date_subdir date_key = do
    entries ← write_manifest_file env date_subdir
    move_log_if_dated date_subdir date_key
    mark_if_dated date_key
    try_clear_error env (codes "seal") date_subdir

  -- `_seal_directory`
  unfoldable pub seal_directory : Text → Bool → Option Text → Io (Unit {0})
  seal_directory date_subdir true date_key w = (ok tt, w)
  seal_directory date_subdir false date_key w =
      handle (λ e. try_record_error env (codes "seal") date_subdir e)
        (seal_steps date_subdir date_key w)
