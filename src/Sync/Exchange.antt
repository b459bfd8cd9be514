-- ===== src/Sync/Exchange.antt =====
-- A push on one machine and a pull on another, over a server that hands on what it was given.
use browser_visit_logger.Base.{
  ℕ, Text, List, [], ◌∷◌, ◌++◌, ◌+◌, ◌==◌, true, false, Option, none, ◌≡◌, refl, ◌∙◌, ap, map,
  if◌then◌else◌, text_eq,
}
use mathlib.Core.List.{flat_map}
use browser_visit_logger.Base.Strings.{file_lines}
use browser_visit_logger.Database.{Offset}
use browser_visit_logger.Base.Sorting.{All-sorted}
use browser_visit_logger.Base.{All, All-if, All-filter_map, keep, arith, some}
use browser_visit_logger.Sync.Push.Behind.{
  lines_behind, all_lines, numbered, is_behind, keep-append,
}
use browser_visit_logger.Names.{log_date, consume, date_shape, lits, Part, at_end}
use browser_visit_logger.Base.Strings.{text_le, text_lt, codes}
use browser_visit_logger.Files.{is_dir, list_dir}
use browser_visit_logger.Files.{Files, content_of}
use browser_visit_logger.Names.{log_filename_for}
use browser_visit_logger.Paths.{path_join}
use browser_visit_logger.Sync.Cursors.{get_cursor}
use browser_visit_logger.Sync.Push.{Peer, Session, LogLine, do_push, list_local_log_dates}
use browser_visit_logger.Sync.Push.Batches.{all_of, do_push_sends_lines_after_cursor}
use browser_visit_logger.Sync.Pull.{PeerCursor, Chunk, do_pull, peer_cursor}
use browser_visit_logger.Sync.Pull.Tables.{tables, raw_lines, brought, do_pull_applies_lines}
use browser_visit_logger.Sync.Replay.Recovery.{replay_all}

from_start : (d : Text) → text_le [] d ≡ true
unfolding text_lt
from_start [] = refl
from_start (c ∷ d) = refl

consume-some :
    (p : Part) (ps : List Part) (s m rest : Text)
    → consume (p ∷ ps) s ≡ some (m, rest)
    → (m == []) ≡ false
unfolding consume
consume-some p ps [] m rest h = ground arith
consume-some p ps (c ∷ s) [] rest h = ground arith
consume-some p ps (c ∷ s) (d ∷ m) rest h = ground arith

consume_date : (s m rest : Text) → consume date_shape s ≡ some (m, rest) → (m == []) ≡ false
consume_date s m rest h = consume-some _ _ s m rest h

-- The date in the name of a log is no empty text.
log_date_dated : (name date : Text) → log_date name ≡ some date → (date == []) ≡ false
unfolding log_date
log_date_dated name date h = prefixed (consume (lits (codes "browser-visits-")) name) h
  where
    ended :
        (d : Text) (o : Option (Text × Text))
        → (d == []) ≡ false
        → elim o [ none ↦ none | some (l, rest) ↦ if at_end rest then some d else none ] ≡ some date
        → (date == []) ≡ false
    ended d none e h = ground arith
    ended d (some (l, rest)) e h = ground arith

    dated :
        (o : Option (Text × Text))
        → ((m rest : Text) → o ≡ some (m, rest) → (m == []) ≡ false)
        → elim o [
          | none ↦ none
          | some (d, t) ↦ elim (consume (lits (codes ".log")) t) [
            | none ↦ none
            | some (l, rest) ↦ if at_end rest then some d else none
          ]
        ]
          ≡ some date
        → (date == []) ≡ false
    dated none e h = ground arith
    dated (some (d, t)) e h = ended d (consume (lits (codes ".log")) t) (e d t refl) h

    prefixed :
        (o : Option (Text × Text))
        → elim o [
          | none ↦ none
          | some (m, s) ↦ elim (consume date_shape s) [
            | none ↦ none
            | some (d, t) ↦ elim (consume (lits (codes ".log")) t) [
              | none ↦ none
              | some (l, rest) ↦ if at_end rest then some d else none
            ]
          ]
        ]
          ≡ some date
        → (date == []) ≡ false
    prefixed none h = ground arith
    prefixed (some (m, s)) h = dated (consume date_shape s) (consume_date s) h

-- The lines of one log.
abbrev log_lines : Text → Files → Text → List Text
log_lines log_dir fs d = file_lines (content_of (path_join log_dir (log_filename_for d)) fs)

-- The lines of all local logs, day by day.
abbrev pub logged : Text → Files → List Text
logged log_dir fs = flat_map (log_lines log_dir fs) (list_local_log_dates log_dir fs)

raw_lines-append : (ls ms : List LogLine) → raw_lines (ls ++ ms) ≡ raw_lines ls ++ raw_lines ms
raw_lines-append [] ms = refl
raw_lines-append (l ∷ ls) ms = ap (λ r. l.raw_line ∷ r) (raw_lines-append ls ms)

raw_lines-numbered : (d : Text) (i : ℕ) (ls : List Text) → raw_lines (numbered d i ls) ≡ ls
unfolding numbered
raw_lines-numbered d i [] = refl
raw_lines-numbered d i (l ∷ ls) = ap (λ r. l ∷ r) (raw_lines-numbered d (i + 1) ls)

-- Every line of a dated log is behind a cursor without a date, whatever its number.
keep-numbered :
    (off : Offset) (d : Text) (i : ℕ) (ls : List Text)
    → (d == []) ≡ false
    → keep (is_behind ([], off)) (numbered d i ls) ≡ numbered d i ls
unfolding numbered is_behind
keep-numbered off d i [] h = refl
keep-numbered off d i (l ∷ ls) h = ground (arith, keep-numbered off d (i + 1) ls h, from_start d)

module _ (log_dir : Text) (fs : Files) where
  raw_lines-days :
      (off : Offset) (days : List Text)
      → All (λ d. (d == []) ≡ false) days
      → raw_lines
          (keep (is_behind ([], off)) (flat_map (λ d. numbered d 0 (log_lines log_dir fs d)) days))
        ≡ flat_map (log_lines log_dir fs) days
  unfolding flat_map
  raw_lines-days off [] h = refl
  raw_lines-days off (d ∷ days) (dated, h) =
      let day = numbered d 0 (log_lines log_dir fs d) in
      let rest = flat_map (λ d. numbered d 0 (log_lines log_dir fs d)) days in
      ap raw_lines (keep-append (is_behind ([], off)) day rest)
      ∙ raw_lines-append (keep (is_behind ([], off)) day) (keep (is_behind ([], off)) rest)
      ∙ ap (λ r. raw_lines r ++ raw_lines (keep (is_behind ([], off)) rest))
          (keep-numbered off d 0 (log_lines log_dir fs d) dated)
      ∙ ap (λ r. r ++ raw_lines (keep (is_behind ([], off)) rest))
          (raw_lines-numbered d 0 (log_lines log_dir fs d))
      ∙ ap (λ r. log_lines log_dir fs d ++ r) (raw_lines-days off days h)

  dates_All : All (λ d. (d == []) ≡ false) (list_local_log_dates log_dir fs)
  unfolding list_local_log_dates
  dates_All =
      All-if (λ d. (d == []) ≡ false) (is_dir log_dir fs) _
        (All-sorted text_le (λ d. (d == []) ≡ false) _
          (All-filter_map (λ d. (d == []) ≡ false) log_date (list_dir log_dir fs) log_date_dated))

  -- Behind a cursor without a date stand all lines.
  raw_lines-lines_behind :
      (off : Offset) → raw_lines (lines_behind log_dir ([], off) fs) ≡ logged log_dir fs
  unfolding lines_behind all_lines
  raw_lines-lines_behind off = raw_lines-days off (list_local_log_dates log_dir fs) dates_All

-- Where the machine's cursor has no date, as before its first push, it pushes without an exception, and the server answers the cursors
-- of another machine with the lines of those requests, the pull there leaves the visits and events
-- that replaying all log lines of the first machine, day by day, leaves.
pub first_exchange_replays_logs :
    (from to : Peer) (pull_logs : List PeerCursor → List Chunk × Option Text) (s t : Session)
    → s.sent ≡ []
    → (get_cursor from.machine_id s.db).0 ≡ []
    → (do_push from s).1 ≡ none
    → brought (pull_logs (map peer_cursor t.db.sync_state)).0
      ≡ raw_lines (all_of (do_push from s).0.sent)
    → tables (do_pull to pull_logs t).0.db ≡ tables (replay_all (logged from.log_dir s.fs) t.db)
unfolding flat_map
first_exchange_replays_logs from to pull_logs s t unsent unmoved pushed handed =
    do_pull_applies_lines to pull_logs t
    ∙ ap (λ lines. tables (replay_all lines t.db))
        (handed
          ∙ ap raw_lines (
              do_push_sends_lines_after_cursor from s pushed
              ∙ ap
                  (λ sent.
                    all_of sent ++ lines_behind from.log_dir (get_cursor from.machine_id s.db) s.fs)
                  unsent
              ∙ ap (λ d. lines_behind from.log_dir (d, (get_cursor from.machine_id s.db).1) s.fs)
                  unmoved)
          ∙ raw_lines-lines_behind from.log_dir s.fs (get_cursor from.machine_id s.db).1)
