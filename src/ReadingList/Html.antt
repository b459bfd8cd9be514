-- ===== src/ReadingList/Html.antt =====
-- Escaped texts in the page, and the page:
-- `_format_link_html`, `_row_html`, `_ts_cell` and `_render_html`.
pub mod Tags
use browser_visit_logger.Base.{
  Text, ℕ, List, [], ◌∷◌, nat_eq, true, false, none, some, Option, if◌then◌else◌, ◌==◌, is_empty,
  ◌++◌, length, map,
}
use browser_visit_logger.Base.Strings.{codes, replace, join, decimal, newline}
use browser_visit_logger.ReadingList.Query.{Row}
use browser_visit_logger.ReadingList.Markdown.{or_nothing, format_timestamp}
use browser_visit_logger.ReadingList.Strip.{strip}

-- `html.escape` of one character, as its documentation says
abbrev pub escape_code : ℕ → Text
escape_code c =
    if c == b'&'
    then codes "&amp;"
    else if c == b'<'
    then codes "&lt;"
    else if c == b'>'
    then codes "&gt;"
    else if c == b'"'
    then codes "&quot;"
    else if c == b'\''
    then codes "&#x27;"
    else c ∷ []

-- `_INTRO`
abbrev intro : Text
intro =
    codes "Pages tagged ★ Of Interest that have not been ✓ Read yet.  "
    ++ codes "Generated by reading_list.py; rerun to refresh."

-- `html.escape`
unfoldable pub escape_html : Text → Text
escape_html [] = []
escape_html (c ∷ s) = escape_code c ++ escape_html s

abbrev pub html_label : Text → Text → Text
html_label title url = if is_empty (strip title) then url else strip title

-- `_format_link_html`
unfoldable pub format_link_html : Text → Text → Text
format_link_html title url =
    codes "<a href=\""
    ++ (escape_html (replace b' ' (codes "%20") url)
        ++ (codes "\">" ++ (escape_html (html_label title url) ++ codes "</a>")))

abbrev cells_html : List Text → Text
cells_html [] = []
cells_html (c ∷ cells) = codes "<td>" ++ (c ++ (codes "</td>" ++ cells_html cells))

-- `_row_html`
unfoldable pub row_html : List Text → Text
row_html cells = codes "<tr>" ++ (cells_html cells ++ codes "</tr>")

module _ (local_time : Text → Option Text) where
  -- `_ts_cell`
  unfoldable pub ts_cell : Text → Text
  ts_cell iso =
      codes "<span class=\"timestamp\">"
      ++ (escape_html (format_timestamp local_time iso) ++ codes "</span>")

  unfoldable pub skimmed_cells : Row → Text
  skimmed_cells r = row_html (
      format_link_html r.title r.url
      ∷ ts_cell (or_nothing r.last_skimmed)
      ∷ ts_cell r.first_visited
      ∷ [])

  unfoldable pub unskimmed_cells : Row → Text
  unskimmed_cells r = row_html (format_link_html r.title r.url ∷ ts_cell r.first_visited ∷ [])

  abbrev table_html : Text → List Text → List Text
  table_html names [] = codes "<p class=\"empty\">(none)</p>" ∷ []
  table_html names (row ∷ rows) =
      codes "<table>"
      ∷ (codes "<thead><tr>" ++ (names ++ codes "</tr></thead><tbody>"))
      ∷ ((row ∷ rows) ++ (codes "</tbody></table>" ∷ []))

  abbrev heading_html : Text → ℕ → Text
  heading_html title n =
      codes "<h2>" ++ (escape_html title ++ (codes " (" ++ (decimal n ++ codes ")</h2>")))

  -- `_render_html`; `style` is the constant `_HTML_STYLE`.
  unfoldable pub render_html : Text → List Row → List Row → Text
  render_html style skimmed unskimmed = join (newline ∷ []) (
      (codes "<!DOCTYPE html>"
        ∷ codes "<html lang=\"en\">"
        ∷ codes "<head>"
        ∷ codes "<meta charset=\"utf-8\">"
        ∷ codes "<title>Reading list</title>"
        ∷ (codes "<style>" ++ (style ++ codes "</style>"))
        ∷ codes "</head>"
        ∷ codes "<body>"
        ∷ codes "<h1>Reading list</h1>"
        ∷ (codes "<p class=\"intro\">" ++ (escape_html intro ++ codes "</p>"))
        ∷ heading_html (codes "Unread URLs that have been skimmed") (length skimmed)
        ∷ [])
      ++ (table_html (codes "<th>Title</th><th>Last skimmed</th><th>First visited</th>")
            (map skimmed_cells skimmed)
          ++ (heading_html (codes "Unread URLs") (length unskimmed)
              ∷ (table_html (codes "<th>Title</th><th>First visited</th>")
                    (map unskimmed_cells unskimmed)
                  ++ (codes "</body>" ∷ codes "</html>" ∷ [] ∷ [])))))
