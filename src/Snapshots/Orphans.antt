-- ===== src/Snapshots/Orphans.antt =====
-- `_orphan_log_merge_pass`
pub mod Merge
use browser_visit_logger.Base.{
  nat_eq, Text, none, some, List, [], ◌∷◌, ◌==◌, text_eq, if◌then◌else◌,
}
use browser_visit_logger.Base.Strings.{codes, text_le, universal_newlines}
use browser_visit_logger.Base.Table.{insert_or_ignore}
use browser_visit_logger.Database.{Snapshot}
use browser_visit_logger.Names.{log_date}
use browser_visit_logger.Snapshots.Effects.{
  ◌>>=◌, ◌>>◌, pure, Io, Env, ok, os_write, sql_write, handle_os, os_read, commit,
}
use browser_visit_logger.Paths.{path_join}
use browser_visit_logger.Files.{is_dir, list_dir, content_of, path_exists}
use browser_visit_logger.Snapshots.Manifest.{chmod, append_to}
use browser_visit_logger.Snapshots.Errors.{try_record_error, try_clear_error}
use browser_visit_logger.Base.Sorting.{sorted}
use browser_visit_logger.Base.Dict.{pop}

-- `INSERT OR IGNORE INTO snapshots (date, sealed) VALUES (?, 0)`
unfoldable pub backfill_day : Text → List Snapshot → List Snapshot
unfolding insert_or_ignore text_eq
backfill_day date = insert_or_ignore (λ r. r.date == date) (record { date = date; sealed = 0 })

module _ (env : Env) where
  -- Both files are opened before the read; text mode gives the log's lines the same endings.
  unfoldable pub merge_log : Text → Text → Text → Io (Unit {0})
  merge_log src dst date_subdir = do
    os_write env (chmod dst 0o644)
    content ← os_read env (λ fs. universal_newlines (content_of src fs))
    os_write env (append_to dst content)
    os_write env (chmod dst 0o444)
    os_write env (pop src)
    try_clear_error env (codes "seal") date_subdir

  unfoldable pub backfill : Text → Io (Unit {0})
  backfill date = do
    sql_write env (λ db. record db { snapshots = backfill_day date db.snapshots })
    commit env

  -- The body of the loop, for a log of a past day.
  unfoldable pub reconcile_log : Text → Text → Io (Unit {0})
  reconcile_log entry date w =
      let src = path_join env.log_dir entry in
      let date_subdir = path_join env.icloud_snapshots_dir date in
      let dst = path_join date_subdir entry in
      handle_os (λ e. try_record_error env (codes "seal") date_subdir e)
        (if path_exists dst w.fs then merge_log src dst date_subdir w else backfill date w)

  -- One turn of the loop: other files, today's log and later ones are passed over.
  unfoldable pub reconcile_entry : Text → Io (Unit {0})
  reconcile_entry entry w = elim (log_date entry) [
    | none ↦ (ok tt, w)
    | some date ↦ if text_le env.today_utc date then (ok tt, w) else reconcile_log entry date w
  ]

  unfoldable pub reconcile_entries : List Text → Io (Unit {0})
  reconcile_entries [] = pure tt
  reconcile_entries (entry ∷ entries) = do reconcile_entry entry; reconcile_entries entries

  -- `_orphan_log_merge_pass`
  unfoldable pub orphan_log_merge_pass : Io (Unit {0})
  orphan_log_merge_pass w =
      if is_dir env.log_dir w.fs
      then (do
        entries ← os_read env (list_dir env.log_dir)
        reconcile_entries (sorted text_le entries))
          w
      else (ok tt, w)
