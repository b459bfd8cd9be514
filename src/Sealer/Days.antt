-- ===== src/Sealer/Days.antt =====
-- browser-visit-sync-server/sealer/seal_completed_days.py: `cli` behind the parser; the overrides of
-- the library's configuration are in the environment.
pub mod Laws
pub mod Manifests
pub mod Safety
use browser_visit_logger.Base.{
  nat_eq, Text, ℕ, List, [], ◌∷◌, true, false, Bool, ◌++◌, length, keep, if◌then◌else◌, not, ◌==◌,
  ◌&&◌, some,
}
use browser_visit_logger.Files.{Files, list_dir, is_dir, path_exists}
use browser_visit_logger.Base.Strings.{codes, decimal, text_le}
use browser_visit_logger.Snapshots.Effects.{
  Env, Result, Io, pure, ◌>>◌, World, close, ◌>>=◌, sql_write, os_read, ok,
}
use browser_visit_logger.Names.{is_snapshot_name, is_date_dir}
use browser_visit_logger.Base.Sorting.{sorted}
use browser_visit_logger.Snapshots.Seal.{seal_directory, ensure_tables}
use browser_visit_logger.Paths.{path_join}
use browser_visit_logger.Snapshots.Manifest.{manifest_filename}

-- A completed day that is not sealed yet.
unfoldable pub is_due : Files → Text → Text → Text → Bool
is_due fs root today name =
    is_date_dir name
    && not (text_le today name)
    && is_dir (path_join root name) fs
    && not (path_exists (path_join (path_join root name) manifest_filename) fs)

-- The names of `candidates`.
unfoldable pub candidates : Text → Text → Files → List Text
candidates root today fs = keep (is_due fs root today) (sorted text_le (list_dir root fs))

abbrev directories : ℕ → Text
directories n = codes " director" ++ (if n == 1 then codes "y" else codes "ies")

-- `_snapshot_file_count`
unfoldable pub snapshot_file_count : Text → Files → ℕ
snapshot_file_count subdir fs = length (keep is_snapshot_name (list_dir subdir fs))

abbrev dry_line : Text → ℕ → Text
dry_line name n = codes "would seal " ++ (name ++ (codes "  (" ++ (decimal n ++ codes " files)\n")))

module _ (env : Env) where
  abbrev root : Text
  root = env.icloud_snapshots_dir

  unfoldable pub dry_run : List Text → Text → Io Text
  dry_run [] printed = pure printed
  dry_run (name ∷ names) printed = do
    n ← os_read env (snapshot_file_count (path_join root name))
    dry_run names (printed ++ dry_line name n)

  -- The loop over the candidates.
  unfoldable pub seal_each : List Text → Io (Unit {0})
  seal_each [] = pure tt
  seal_each (name ∷ names) = do
    seal_directory env (path_join root name) false (some name)
    seal_each names

  abbrev pub closed {ℓ} : {A : Type ℓ} → Result A × World → Result A × World
  closed (r, w) = (r, close env w)

  -- The `try` with its `finally`: both tables are ensured first.
  unfoldable pub seal_candidates : List Text → Io (Unit {0})
  seal_candidates names w = closed ((do ensure_tables env; ensure_tables env; seal_each names) w)

  -- `cli` from its candidates on: a dry run lists them, another run seals them.
  unfoldable pub seal_or_list : Bool → List Text → Io (ℕ × Text)
  seal_or_list true names = do
    printed ← dry_run names []
    pure (
      0,
      printed
          ++ (decimal (length names) ++ (directories (length names) ++ codes " would be sealed\n")),
    )
  seal_or_list false names = do
    seal_candidates names
    pure (
      0,
      codes "sealed " ++ (decimal (length names) ++ (directories (length names) ++ codes "\n")),
    )

  -- `cli`: the exit code and what is printed on standard output.
  unfoldable pub cli : Bool → Bool → Io (ℕ × Text)
  cli dry has_db w =
      if not (is_dir root w.fs)
      then (ok (1, []), w)
      else if not has_db
      then (ok (1, []), w)
      else (do names ← os_read env (candidates root env.today_utc); seal_or_list dry names) w
