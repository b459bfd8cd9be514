-- ===== src/Sealer/One.antt =====
-- browser-visit-logger/native-host/snapshot_sealer.py: `_resolve_target`, `_extract_date_key` and
-- `cli` behind the parser.
use browser_visit_logger.Base.{
  nat_eq, Text, ℕ, if◌then◌else◌, Bool, Option, not, ◌||◌, contains, ◌&&◌, some, none,
}
use browser_visit_logger.Snapshots.Effects.{Env, Io, ◌>>◌, ok, pure}
use browser_visit_logger.Paths.{is_abs, basename, normpath, sep, path_join}
use browser_visit_logger.Sealer.Days.{closed}
use browser_visit_logger.Files.{is_dir, path_exists}
use browser_visit_logger.Names.{is_date_dir}
use browser_visit_logger.Snapshots.Seal.{seal_directory, ensure_tables}
use browser_visit_logger.Snapshots.Manifest.{manifest_filename}
use browser_visit_logger.Snapshots.Orphans.{orphan_log_merge_pass}

-- `_resolve_target`
unfoldable pub resolve_target : Text → Text → Text
resolve_target icloud_dir directory =
    if is_abs directory || contains directory sep then directory else path_join icloud_dir directory

-- `_extract_date_key`; `is_calendar_date` is `date.fromisoformat` without a `ValueError`.
unfoldable pub extract_date_key : (Text → Bool) → Text → Option Text
extract_date_key is_calendar_date target =
    let base = basename (normpath target) in
    if is_date_dir base && is_calendar_date base then some base else none

module _ (env : Env) (is_calendar_date : Text → Bool) where
  -- The `try` with its `finally`: both tables are ensured first.
  unfoldable pub seal_target : Text → Bool → Io (Unit {0})
  seal_target target dry w = closed env (
      (do
        ensure_tables env
        ensure_tables env
        seal_directory env target dry (extract_date_key is_calendar_date target)
        (if dry then pure tt else orphan_log_merge_pass env))
        w)

  -- `cli`; its exit code.
  unfoldable pub cli : Text → Bool → Bool → Io ℕ
  cli directory dry has_db w =
      let target = resolve_target env.icloud_snapshots_dir directory in
      if not (is_dir target w.fs)
      then (ok 1, w)
      else if path_exists (path_join target manifest_filename) w.fs
      then (ok 1, w)
      else if not has_db
      then (ok 1, w)
      else (do seal_target target dry; pure 0) w
