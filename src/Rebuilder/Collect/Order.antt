-- ===== src/Rebuilder/Collect/Order.antt =====
-- The order and the origin of the collected logs.
use browser_visit_logger.Base.{
  ◌≡◌, Text, true, false, arith, All, nat_eq, text_eq, some, Bool-cases, ◌&&◌, inl, All-filter_map,
  All-append, All-if, inr, All-flat_map, ◌++◌,
}
use browser_visit_logger.Rebuilder.Collect.{
  found_le, Found, discovered, log_in_dir, log_in_day, logs_of_day, logs_in_archive,
  logs_in_log_dir,
}
use browser_visit_logger.Files.{Files, is_file, is_dir, list_dir}
use browser_visit_logger.Base.Strings.Laws.{text_lt_asymm, text_lt_irrefl}
use browser_visit_logger.Names.{log_date, is_date_dir}
use browser_visit_logger.Paths.{path_join}
use browser_visit_logger.Base.Sorting.{IsSorted, sorted-IsSorted, All-sorted}

found_le_total : (a b : Found) → found_le a b ≡ false → found_le b a ≡ true
unfolding found_le
found_le_total a b h = ground (arith, text_lt_asymm b.date a.date, text_lt_irrefl a.date)

module _ (fs : Files) (log_dir icloud_dir : Text) where
  -- Where a collected log stands: in the directory of its own day, or in the log directory.
  pub data IsLog (f : Found) : Type 0 where
    archived :
        (day entry : Text)
        → f.path ≡ path_join (path_join icloud_dir day) entry
        → f.date ≡ day
        → log_date entry ≡ some f.date
        → is_date_dir day ≡ true
        → is_file f.path fs ≡ true
        → f.source_priority ≡ 0
        → IsLog f
    in_log_dir :
        (entry : Text)
        → f.path ≡ path_join log_dir entry
        → log_date entry ≡ some f.date
        → is_file f.path fs ≡ true
        → f.source_priority ≡ 1
        → IsLog f

  log_in_day-IsLog :
      (day entry : Text) (f : Found)
      → is_date_dir day ≡ true
      → log_in_day fs (path_join icloud_dir day) day entry ≡ some f
      → IsLog f
  unfolding log_in_day
  log_in_day-IsLog day entry f dated h =
      archived day entry (ground arith) (ground arith) (ground arith) dated (ground arith)
        (ground arith)

  log_in_dir-IsLog : (entry : Text) (f : Found) → log_in_dir fs log_dir entry ≡ some f → IsLog f
  unfolding log_in_dir
  log_in_dir-IsLog entry f h =
      in_log_dir entry (ground arith) (ground arith) (ground arith) (ground arith)

  logs_of_day-IsLog : (day : Text) → All IsLog (logs_of_day fs icloud_dir day)
  unfolding logs_of_day
  logs_of_day-IsLog day =
      elim (Bool-cases (is_date_dir day && is_dir (path_join icloud_dir day) fs)) [
        | inl here ↦ rw here (
            All-filter_map IsLog (log_in_day fs (path_join icloud_dir day) day)
              (list_dir (path_join icloud_dir day) fs)
              (λ entry f. log_in_day-IsLog day entry f (ground arith)))
        | inr gone ↦ rw gone tt
      ]

  -- The logs that are found stand in the order of their dates, a day's archived log before the one in
  -- the log directory; each is a file with its date in its name, and an archived one stands in the directory of
  -- that same day.
  pub discovered_in_order :
      IsSorted found_le (discovered fs log_dir icloud_dir)
      × All IsLog (discovered fs log_dir icloud_dir)
  unfolding discovered logs_in_archive logs_in_log_dir
  discovered_in_order = (
    sorted-IsSorted found_le found_le_total
        (logs_in_archive fs icloud_dir ++ logs_in_log_dir fs log_dir),
    All-sorted found_le IsLog _ (
        All-append IsLog _ _
          (All-if IsLog (is_dir icloud_dir fs) _ (
            All-flat_map IsLog (logs_of_day fs icloud_dir) (list_dir icloud_dir fs)
              logs_of_day-IsLog))
          (All-if IsLog (is_dir log_dir fs) _
            (All-filter_map IsLog (log_in_dir fs log_dir) (list_dir log_dir fs) log_in_dir-IsLog))),
  )
