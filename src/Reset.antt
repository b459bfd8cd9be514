-- ===== src/Reset.antt =====
-- browser-visit-logger/reset.py. The file system has no symbolic links, and of its operations only
-- `os.remove` of a directory raises. What the script prints is not modelled.
pub mod Reach
pub mod Gone
use browser_visit_logger.Base.{
  Text, Bool, true, false, not, ◌||◌, Option, none, some, List, [], ◌∷◌, ◌++◌, if◌then◌else◌, ◌==◌,
  text_eq, is_empty, contains, map,
}
use browser_visit_logger.Base.Dict.{get, pop}
use browser_visit_logger.Base.Strings.{codes, text_le, starts_with, after_prefix}
use browser_visit_logger.Base.Sorting.{sorted}
use browser_visit_logger.Files.{Files, Node, path_exists, is_dir, list_dir}
use browser_visit_logger.Names.{log_date}
use browser_visit_logger.Paths.{path_join, sep}
use browser_visit_logger.ReadingList.Strip.{strip}
use browser_visit_logger.QueryServer.Validate.{lower}
use mathlib.Core.List.{filter_map}

-- The paths at the top of the script, most of which the environment may set.
pub record Places : Type 0 where
  pub log_dir : Text
  pub host_log : Text
  pub mover_log : Text
  pub verifier_log : Text
  pub db_file : Text
  pub snap_dir : Text
  pub icloud_dir : Text

pub record Flags : Type 0 where
  pub log : Bool
  pub host_log : Bool
  pub db : Bool
  pub snapshots : Bool
  pub icloud : Bool
  pub force : Bool

-- The third part of a target: 'file', 'dir' or 'glob'.
pub data Kind : Type 0 where
  one_file whole_dir no_match : Kind

abbrev pub Targets : Type 0
Targets = List (Text × Kind)

-- `reset_all`
abbrev pub reset_all : Flags → Bool
reset_all flags = not (flags.log || flags.host_log || flags.db || flags.snapshots || flags.icloud)

-- `shutil.rmtree(d)`
unfoldable pub in_tree : Text → Text → Bool
unfolding text_eq after_prefix
in_tree d path = d == path || starts_with path (d ++ sep ∷ [])

unfoldable pub remove_tree : Text → Files → Files
remove_tree d [] = []
remove_tree d ((path, node) ∷ fs) =
    let rest = remove_tree d fs in if in_tree d path then rest else (path, node) ∷ rest

-- `_delete_file`; the Bool is false where it raises
unfoldable pub delete_file : Text → Files → Files × Bool
unfolding path_exists is_dir pop
delete_file path fs =
    if is_dir path fs then (fs, false) else (if path_exists path fs then pop path fs else fs, true)

-- `_delete_dir`
unfoldable pub delete_dir : Text → Files → Files × Bool
unfolding is_dir
delete_dir path fs = (if is_dir path fs then remove_tree path fs else fs, true)

-- One turn of the last loop of `main`.
unfoldable pub delete_target : Text × Kind → Files → Files × Bool
delete_target (path, one_file) fs = delete_file path fs
delete_target (path, whole_dir) fs = delete_dir path fs
delete_target (path, no_match) fs = (fs, true)

abbrev pub if_running : (Files → Files × Bool) → Files × Bool → Files × Bool
if_running next (fs, true) = next fs
if_running next (fs, false) = (fs, false)

unfoldable pub delete_targets : Targets → Files → Files × Bool
delete_targets [] fs = (fs, true)
delete_targets (t ∷ targets) fs = if_running (delete_targets targets) (delete_target t fs)

abbrev pub only_if : Bool → Targets → Targets
only_if true targets = targets
only_if false targets = []

-- The answer to the question; none for the end of the input.
unfoldable pub is_yes : Option Text → Bool
unfolding strip lower text_eq
is_yes none = false
is_yes (some answer) = contains (codes "y" ∷ codes "yes" ∷ []) (lower (strip answer))

module _ (places : Places) where
  abbrev pub in_log_dir : Text → Option Text → Option Text
  in_log_dir name none = none
  in_log_dir name (some date) = some (path_join places.log_dir name)

  -- The path of a name that the pattern takes.
  abbrev pub log_path : Text → Option Text
  log_path name = in_log_dir name (log_date name)

  -- `_per_day_log_paths`
  unfoldable pub per_day_log_paths : Files → List Text
  unfolding list_dir is_dir
  per_day_log_paths fs =
      if is_dir places.log_dir fs
      then sorted text_le (filter_map log_path (list_dir places.log_dir fs))
      else []

  abbrev pub log_targets : List Text → Targets
  log_targets [] = (path_join places.log_dir (codes "browser-visits-*.log"), no_match) ∷ []
  log_targets (path ∷ paths) = map (λ p. (p, one_file)) (path ∷ paths)

  abbrev pub process_targets : Targets
  process_targets =
      (places.host_log, one_file)
      ∷ (places.mover_log, one_file)
      ∷ (places.verifier_log, one_file)
      ∷ []

  -- `targets`
  unfoldable pub targets_of : Flags → Files → Targets
  targets_of flags fs =
      only_if (flags.log || reset_all flags) (log_targets (per_day_log_paths fs))
      ++ (only_if (flags.host_log || reset_all flags) process_targets
          ++ (only_if (flags.db || reset_all flags) ((places.db_file, one_file) ∷ [])
              ++ (only_if (flags.snapshots || reset_all flags) ((places.snap_dir, whole_dir) ∷ [])
                  ++ only_if (flags.icloud || reset_all flags)
                      ((places.icloud_dir, whole_dir) ∷ []))))

  -- `main`: the files behind it, and whether it ends without an exception
  unfoldable pub reset : Flags → Option Text → Files → Files × Bool
  reset flags answer fs =
      if flags.force || is_yes answer then delete_targets (targets_of flags fs) fs else (fs, true)
