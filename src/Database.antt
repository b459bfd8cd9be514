-- ===== src/Database.antt =====
-- The tables of browser-visit-logger/schema.sql: their rows, and which tables a database file holds.
use browser_visit_logger.Base.{ℕ, Text, Option, none, some, List, []}

pub record Visit : Type 0 where
  pub url : Text
  pub timestamp : Text
  pub title : Text
  pub of_interest : Option Text
  pub read : ℕ
  pub skimmed : ℕ

-- A row of `read_events` or of `skimmed_events`.
pub record Event : Type 0 where
  pub url : Text
  pub timestamp : Text
  pub filename : Text
  pub directory : Text

-- An events table, with the DEFAULT of its column `directory`.
pub record Events : Type 0 where
  pub rows : List Event
  pub default_directory : Text

pub record Snapshot : Type 0 where
  pub date : Text
  pub sealed : ℕ

pub record MoverError : Type 0 where
  pub key : Text
  pub operation : Text
  pub target : Text
  pub message : Text
  pub first_seen : Text
  pub last_seen : Text
  pub attempts : ℕ
  pub notified : ℕ
  pub immediate : ℕ

-- `cursor_line_offset` may be -1, before the first line.
pub data Offset : Type 0 where
  before_first : Offset
  at_line : ℕ → Offset

pub record SyncState : Type 0 where
  pub machine_id : Text
  pub cursor_log_date : Text
  pub cursor_line_offset : Offset
  pub last_sync_attempt_at : Text
  pub last_sync_success_at : Text
  pub last_error : Text

-- A database in which every table exists.
pub record Db : Type 0 where
  pub visits : List Visit
  pub read_events : Events
  pub skimmed_events : Events
  pub snapshots : List Snapshot
  pub mover_errors : List MoverError
  pub sync_state : List SyncState

-- A database file: `none` for a table that does not exist.
pub record DbFile : Type 0 where
  pub visits : Option (List Visit)
  pub read_events : Option Events
  pub skimmed_events : Option Events
  pub snapshots : Option (List Snapshot)
  pub mover_errors : Option (List MoverError)
  pub sync_state : Option (List SyncState)

-- The two events tables, and the counters in `visits` that belong to them.
pub data Tag : Type 0 where
  read skimmed : Tag

abbrev pub events : Tag → Db → List Event
events read db = db.read_events.rows
events skimmed db = db.skimmed_events.rows

abbrev pub with_events : Tag → List Event → Db → Db
with_events read rows db = record db { read_events = record db.read_events { rows = rows } }
with_events skimmed rows db = record db {
  skimmed_events = record db.skimmed_events { rows = rows };
}

abbrev pub counter : Tag → Visit → ℕ
counter read v = v.read
counter skimmed v = v.skimmed

abbrev pub empty_file : DbFile
empty_file = record {
  visits = none;
  read_events = none;
  skimmed_events = none;
  snapshots = none;
  mover_errors = none;
  sync_state = none;
}

-- `CREATE TABLE IF NOT EXISTS`
abbrev pub create_if_missing {ℓ} : {A : Type ℓ} → A → Option A → A
create_if_missing fresh none = fresh
create_if_missing fresh (some table) = table

abbrev pub file_of : Db → DbFile
file_of db = record {
  visits = some db.visits;
  read_events = some db.read_events;
  skimmed_events = some db.skimmed_events;
  snapshots = some db.snapshots;
  mover_errors = some db.mover_errors;
  sync_state = some db.sync_state;
}

-- schema.sql, with the sentinel of the events tables' DEFAULT replaced by `downloads`
unfoldable pub create_tables : Text → DbFile → Db
create_tables downloads file = record {
  visits = create_if_missing [] file.visits;
  read_events =
      create_if_missing (record { rows = []; default_directory = downloads }) file.read_events;
  skimmed_events =
      create_if_missing (record { rows = []; default_directory = downloads }) file.skimmed_events;
  snapshots = create_if_missing [] file.snapshots;
  mover_errors = create_if_missing [] file.mover_errors;
  sync_state = create_if_missing [] file.sync_state;
}
