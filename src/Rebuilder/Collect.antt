-- ===== src/Rebuilder/Collect.antt =====
-- `_collect_log_paths`: which log files a replay reads, and in which order.
pub mod Order
use browser_visit_logger.Base.{
  ℕ, Text, Bool, true, false, not, ◌&&◌, ◌||◌, Option, none, some, List, [], ◌∷◌, ◌++◌, ◌==◌,
  text_eq, nat_eq, if◌then◌else◌, ltb, map,
}
use browser_visit_logger.Files.{Files, is_dir, is_file, list_dir}
use browser_visit_logger.Paths.{path_join}
use mathlib.Core.List.{filter_map, flat_map}
use browser_visit_logger.Names.{log_date, is_date_dir}
use browser_visit_logger.Base.Sorting.{sorted}
use browser_visit_logger.Base.Strings.{text_lt}

-- A log file: the date in its name, 0 for the archive and 1 for the log directory, and its path.
pub record Found : Type 0 where
  pub date : Text
  pub source_priority : ℕ
  pub path : Text

-- A log in the directory of a day counts only if the two dates agree.
abbrev of_day : Text → ℕ → Text → Option Text → Option Found
of_day day priority full none = none
of_day day priority full (some date) =
    if date == day
    then some (record { date = date; source_priority = priority; path = full })
    else none

module _ (fs : Files) where
  unfoldable pub log_in_day : Text → Text → Text → Option Found
  log_in_day date_dir day entry =
      let full = path_join date_dir entry in
      if is_file full fs then of_day day 0 full (log_date entry) else none

  unfoldable pub logs_of_day : Text → Text → List Found
  logs_of_day icloud_dir day =
      let date_dir = path_join icloud_dir day in
      if is_date_dir day && is_dir date_dir fs
      then filter_map (log_in_day date_dir day) (list_dir date_dir fs)
      else []

  unfoldable pub logs_in_archive : Text → List Found
  logs_in_archive icloud_dir =
      if is_dir icloud_dir fs
      then flat_map (logs_of_day icloud_dir) (list_dir icloud_dir fs)
      else []

  unfoldable pub log_in_dir : Text → Text → Option Found
  log_in_dir log_dir entry =
      let full = path_join log_dir entry in
      elim (log_date entry) [
        | none ↦ none
        | some date ↦
            if is_file full fs
            then some (record { date = date; source_priority = 1; path = full })
            else none
      ]

  unfoldable pub logs_in_log_dir : Text → List Found
  logs_in_log_dir log_dir =
      if is_dir log_dir fs then filter_map (log_in_dir log_dir) (list_dir log_dir fs) else []

-- The sort key `(t[0], t[1])`
unfoldable pub found_le : Found → Found → Bool
found_le a b =
    not (text_lt b.date a.date || (b.date == a.date && ltb b.source_priority a.source_priority))

-- The list `discovered` after its sort.
unfoldable pub discovered : Files → Text → Text → List Found
discovered fs log_dir icloud_dir =
    sorted found_le (logs_in_archive fs icloud_dir ++ logs_in_log_dir fs log_dir)

unfoldable pub collect_log_paths : Files → Text → Text → List (Text × Text)
collect_log_paths fs log_dir icloud_dir =
    map (λ f. (f.date, f.path)) (discovered fs log_dir icloud_dir)
