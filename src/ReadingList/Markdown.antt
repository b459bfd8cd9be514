-- ===== src/ReadingList/Markdown.antt =====
-- `_escape_cell`, `_escape_url`, `_format_link`, `_format_timestamp` and `_render_markdown`.
pub mod Cells
use browser_visit_logger.Base.{
  Text, ℕ, List, [], ◌∷◌, nat_eq, true, false, none, some, Option, if◌then◌else◌, Bool, ◌++◌,
  is_empty, leb, ◌&&◌, length, ◌||◌, map, ◌==◌,
}
use browser_visit_logger.Base.Strings.{replace, codes, join, tab, newline, decimal, carriage_return}
use mathlib.Core.List.{reverse}
use browser_visit_logger.ReadingList.Query.{Row}
use browser_visit_logger.ReadingList.Strip.{strip}

-- `_escape_cell`
unfoldable pub escape_cell : Text → Text
escape_cell text =
    let line =
      replace tab (codes " ")
        (replace newline (codes " ") (replace carriage_return (codes " ") text)) in
    let piped = replace b'|' (codes "\\|") line in
    strip (replace b']' (codes "\\]") (replace b'[' (codes "\\[") piped))

-- `_escape_url`
unfoldable pub escape_url : Text → Text
escape_url url =
    replace b' ' (codes "%20") (replace b')' (codes "%29") (replace b'(' (codes "%28") url))

abbrev pub label_of : Text → Text → Text
label_of title url = if is_empty (strip title) then url else title

-- `_format_link`
unfoldable pub format_link : Text → Text → Text
format_link title url =
    codes "[" ++ (escape_cell (label_of title url) ++ (codes "](" ++ (escape_url url ++ codes ")")))

abbrev shown : Text → Option Text → Text
shown iso none = iso
shown iso (some t) = t

-- `_format_timestamp`
unfoldable pub format_timestamp : (Text → Option Text) → Text → Text
format_timestamp local_time [] = []
format_timestamp local_time (c ∷ iso) =
    shown (c ∷ iso) (local_time (replace b'Z' (codes "+00:00") (c ∷ iso)))

abbrev pub or_nothing : Option Text → Text
or_nothing none = []
or_nothing (some t) = t

module _ (local_time : Text → Option Text) where
  unfoldable pub skimmed_row : Row → Text
  skimmed_row r =
      codes "| "
      ++ (format_link r.title r.url
          ++ (codes " | "
              ++ (format_timestamp local_time (or_nothing r.last_skimmed)
                  ++ (codes " | " ++ (format_timestamp local_time r.first_visited ++ codes " |")))))

  unfoldable pub unskimmed_row : Row → Text
  unskimmed_row r =
      codes "| "
      ++ (format_link r.title r.url
          ++ (codes " | " ++ (format_timestamp local_time r.first_visited ++ codes " |")))

  abbrev heading : Text → ℕ → Text
  heading title n = codes "## " ++ (title ++ (codes " (" ++ (decimal n ++ codes ")")))

  -- The rows of a table behind its two lines of heading.
  abbrev table : Text → Text → List Text → List Text
  table names rule [] = codes "_(none)_" ∷ []
  table names rule (row ∷ rows) = names ∷ rule ∷ row ∷ rows

  -- `_render_markdown`
  unfoldable pub render_markdown : List Row → List Row → Text
  render_markdown skimmed unskimmed = join (newline ∷ []) (
      codes "# Reading list"
      ∷ []
      ∷ codes "Pages tagged **★ Of Interest** that have not been **✓ Read** yet."
      ∷ codes "Generated by `reading_list.py`; rerun to refresh."
      ∷ []
      ∷ heading (codes "Unread URLs that have been skimmed") (length skimmed)
      ∷ []
      ∷ (table (codes "| Title | Last skimmed | First visited |")
            (codes "|-------|--------------|---------------|") (map skimmed_row skimmed)
          ++ ([]
              ∷ heading (codes "Unread URLs") (length unskimmed)
              ∷ []
              ∷ (table (codes "| Title | First visited |") (codes "|-------|---------------|")
                    (map unskimmed_row unskimmed)
                  ++ ([] ∷ [])))))
