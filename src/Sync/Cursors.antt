-- ===== src/Sync/Cursors.antt =====
-- `sync_state` and the errors of the sync client: `get_cursor`, `set_cursor`, `mark_attempt`,
-- `should_skip`, `record_error`, `clear_error` and `_is_auth_error`.
use browser_visit_logger.Base.Strings.{has_part, codes}
use browser_visit_logger.Base.{
  ℕ, Option, text_eq, Bool, Text, map, ◌++◌, if◌then◌else◌, false, [], leb, ◌||◌, some, ◌&&◌, not,
  none, ◌==◌, is_empty, ◌+◌,
}
use browser_visit_logger.Database.{Offset, SyncState, Db, before_first, at_line}
use browser_visit_logger.Base.Table.{first, delete, upsert}
use browser_visit_logger.Snapshots.Errors.{max}

-- A machine's place in its logs: the date, and the last line that was exchanged.
abbrev pub Cursor : Type 0
Cursor = Text × Offset

abbrev pub cursor_of : Option SyncState → Cursor
cursor_of none = ([], before_first)
cursor_of (some s) = (s.cursor_log_date, s.cursor_line_offset)

unfoldable pub get_cursor : Text → Db → Cursor
unfolding text_eq first
get_cursor machine_id db = cursor_of (first (λ s. s.machine_id == machine_id) db.sync_state)

-- A row with the columns' defaults.
abbrev pub fresh_state : Text → SyncState
fresh_state machine_id = record {
  machine_id = machine_id;
  cursor_log_date = [];
  cursor_line_offset = at_line 0;
  last_sync_attempt_at = [];
  last_sync_success_at = [];
  last_error = [];
}

unfoldable pub set_cursor : Text → Cursor → Text → Db → Db
unfolding text_eq upsert
set_cursor machine_id (date, offset) now db = record db {
  sync_state =
      upsert (λ s. s.machine_id == machine_id)
        (λ s. record s {
          cursor_log_date = date;
          cursor_line_offset = offset;
          last_sync_success_at = now;
        })
        (record (fresh_state machine_id) {
          cursor_log_date = date;
          cursor_line_offset = offset;
          last_sync_success_at = now;
        })
        db.sync_state;
}

abbrev pub or_empty : Option Text → Text
or_empty none = []
or_empty (some t) = t

unfoldable pub mark_attempt : Text → Option Text → Text → Db → Db
unfolding text_eq upsert
mark_attempt machine_id error now db = record db {
  sync_state =
      upsert (λ s. s.machine_id == machine_id)
        (λ s. record s { last_sync_attempt_at = now; last_error = or_empty error })
        (record (fresh_state machine_id) {
          last_sync_attempt_at = now;
          last_error = or_empty error;
        })
        db.sync_state;
}

abbrev or_false : Option Bool → Bool
or_false none = false
or_false (some b) = b

abbrev skips : (Text → Option Bool) → Option SyncState → Bool
skips is_recent none = false
skips is_recent (some s) =
    not (is_empty s.last_sync_attempt_at) && or_false (is_recent s.last_sync_attempt_at)

-- `is_recent` parses a time and tests it against the interval; `none` where it is no time.
unfoldable pub should_skip : (Text → Option Bool) → Text → Db → Bool
unfolding text_eq first
should_skip is_recent machine_id db =
    skips is_recent (first (λ s. s.machine_id == machine_id) db.sync_state)

-- `f"{operation}|{target}"`
abbrev pub sync_key : Text → Text → Text
sync_key operation target = operation ++ codes "|" ++ target

abbrev pub flag : Bool → ℕ
flag b = if b then 1 else 0

unfoldable pub record_error : Text → Text → Text → Bool → Text → Db → Db
unfolding text_eq upsert
record_error operation target message immediate now db = record db {
  mover_errors =
      upsert (λ r. r.key == sync_key operation target)
        (λ r. record r {
          message = message;
          last_seen = now;
          attempts = r.attempts + 1;
          immediate = max r.immediate (flag immediate);
        })
        (record {
          key = sync_key operation target;
          operation = operation;
          target = target;
          message = message;
          first_seen = now;
          last_seen = now;
          attempts = 1;
          notified = 0;
          immediate = flag immediate;
        })
        db.mover_errors;
}

unfoldable pub clear_error : Text → Text → Db → Db
unfolding text_eq delete
clear_error operation target db = record db {
  mover_errors = delete (λ r. r.key == sync_key operation target) db.mover_errors;
}

-- `str.lower`, on the letters that the tests below look for
abbrev lower_code : ℕ → ℕ
lower_code c = if leb 65 c && leb c 90 then c + 32 else c

abbrev lower : Text → Text
lower = map lower_code

-- `_is_auth_error`
unfoldable pub is_auth_error : Text → Bool
unfolding has_part
is_auth_error text =
    has_part (codes "unauthenticated") (lower text)
    || has_part (codes "permission_denied") (lower text)
    || has_part (codes "certificate") (lower text)
