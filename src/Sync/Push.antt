-- ===== src/Sync/Push.antt =====
-- `list_local_log_dates`, `read_log_lines_after`, `do_push` and `_send_push`.
pub mod Batches
pub mod Behind
pub mod Place
use browser_visit_logger.Database.{Db, Offset, at_line, before_first}
use browser_visit_logger.Base.{
  text_eq, nat_eq, ℕ, Option, Text, List, Bool, if◌then◌else◌, some, ◌∷◌, ◌++◌, none, true, ◌==◌,
  ◌+◌, is_empty, [], ◌&&◌, keep, ltb, leb, false, length,
}
use browser_visit_logger.Sync.Cursors.{
  Cursor, clear_error, get_cursor, set_cursor, record_error, is_auth_error,
}
use browser_visit_logger.Files.{Files, is_dir, content_of, list_dir}
use browser_visit_logger.Base.Strings.{codes, file_lines, text_le}
use browser_visit_logger.Base.Sorting.{sorted}
use browser_visit_logger.Paths.{path_join}
use browser_visit_logger.Names.{log_filename_for, log_date}
use mathlib.Core.List.{filter_map, flat_map}

-- The message `LogLine`
pub record LogLine : Type 0 where
  pub date : Text
  pub line_offset : ℕ
  pub raw_line : Text

-- The local side of a run: the connection with what it has committed, the files, the requests that
-- were sent, and the number of readings of the clock.
pub record Session : Type 0 where
  pub db : Db
  pub saved : Db
  pub fs : Files
  pub sent : List (List LogLine)
  pub tick : ℕ

-- The configuration of a run, the clock, and what the server answers: `none` or the text of the
-- exception. The answer to a push may depend on the requests before it.
pub record Peer : Type 0 where
  pub machine_id : Text
  pub endpoint : Text
  pub log_dir : Text
  pub peer_logs_dir : Text
  pub now : ℕ → Text
  pub push_logs : List (List LogLine) → List LogLine → Option Text

unfoldable pub list_local_log_dates : Text → Files → List Text
list_local_log_dates log_dir fs =
    if is_dir log_dir fs then sorted text_le (filter_map log_date (list_dir log_dir fs)) else []

abbrev pub is_after : Offset → ℕ → Bool
is_after before_first i = true
is_after (at_line k) i = ltb k i

-- `enumerate` from `i`, past the offset
unfoldable pub lines_after : Text → Offset → ℕ → List Text → List LogLine
lines_after date offset i [] = []
lines_after date offset i (raw ∷ rest) =
    let later = lines_after date offset (i + 1) rest in
    if is_after offset i
    then record { date = date; line_offset = i; raw_line = raw } ∷ later
    else later

unfoldable pub read_log_lines_after : Text → Text → Offset → Files → List LogLine
read_log_lines_after log_dir date offset fs =
    lines_after date offset 0
      (file_lines (content_of (path_join log_dir (log_filename_for date)) fs))

-- The offset where the day of the cursor goes on; every other day starts at its first line.
abbrev pub start_offset : Cursor → Text → Offset
start_offset (cur_date, cur_off) d = if d == cur_date then cur_off else before_first

unfoldable pub lines_to_push : Text → Cursor → Files → List LogLine
lines_to_push log_dir (cur_date, cur_off) fs =
    let local_dates = list_local_log_dates log_dir fs in
    let dates =
      if is_empty cur_date then local_dates else keep (λ d. text_le cur_date d) local_dates in
    flat_map (λ d. read_log_lines_after log_dir d (start_offset (cur_date, cur_off) d) fs) dates

-- A cursor on the last of the lines.
unfoldable pub cursor_after : List LogLine → Cursor → Cursor
cursor_after [] cursor = cursor
cursor_after (l ∷ ls) cursor = cursor_after ls (l.date, at_line l.line_offset)

abbrev same_offset : Offset → Offset → Bool
same_offset before_first before_first = true
same_offset before_first (at_line k) = false
same_offset (at_line k) before_first = false
same_offset (at_line k) (at_line j) = k == j

abbrev pub same_cursor : Cursor → Cursor → Bool
same_cursor (d, o) (e, p) = d == e && same_offset o p

abbrev pub batch_size : ℕ
batch_size = 500

abbrev pub and_then :
    (Session → Session × Option Text) → Session × Option Text → Session × Option Text
and_then f (s, none) = f s
and_then f (s, some text) = (s, some text)

module _ (env : Peer) where
  abbrev answered : Session → Option Text → Session × Option Text
  answered s none = (record s { db = clear_error (codes "sync_push") env.endpoint s.db }, none)
  answered s (some text) = (
    record s {
      db =
          record_error (codes "sync_push") env.endpoint text (is_auth_error text) (env.now s.tick)
            s.db;
      tick = s.tick + 1;
    },
    some text,
  )

  -- `_send_push`; with the text of the exception that it raises.
  unfoldable pub send_push : List LogLine → Session → Session × Option Text
  send_push lines s =
      answered (record s { sent = s.sent ++ lines ∷ [] }) (env.push_logs s.sent lines)

  -- The loop of `do_push`, with the lines that wait for the next request.
  unfoldable pub push_lines : List LogLine → List LogLine → Session → Session × Option Text
  push_lines [] [] s = (s, none)
  push_lines [] (b ∷ bs) s = send_push (b ∷ bs) s
  push_lines (l ∷ ls) batch s =
      if leb batch_size (length (batch ++ l ∷ []))
      then and_then (push_lines ls []) (send_push (batch ++ l ∷ []) s)
      else push_lines ls (batch ++ l ∷ []) s

  abbrev pub moved : Cursor → Cursor → Session → Session
  moved cursor last s =
      if same_cursor last cursor
      then s
      else record s { db = set_cursor env.machine_id last (env.now s.tick) s.db; tick = s.tick + 1 }

  unfoldable pub do_push : Session → Session × Option Text
  do_push s =
      let cursor = get_cursor env.machine_id s.db in
      let lines = lines_to_push env.log_dir cursor s.fs in
      and_then (λ t. (moved cursor (cursor_after lines cursor) t, none)) (push_lines lines [] s)
