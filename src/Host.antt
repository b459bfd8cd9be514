-- ===== src/Host.antt =====
-- browser-visit-logger/native-host/host.py: the schema and insert helpers that the rebuilder uses.
-- `DOWNLOADS_SNAPSHOTS_DIR`, a global of the module, is the argument `downloads`. A statement that
-- fails raises out of these functions; here each statement succeeds.
pub mod Counters
pub mod Repeats
use browser_visit_logger.Base.{
  ℕ, ◌+◌, Text, Bool, true, false, ◌&&◌, not, none, some, List, [], ltb, ◌==◌, text_eq,
  if◌then◌else◌,
}
use browser_visit_logger.Base.Strings.{codes}
use browser_visit_logger.Base.Table.{exists, count, update, insert_or_ignore}
use browser_visit_logger.Database.{
  Visit, Event, Db, DbFile, Tag, read, skimmed, events, with_events, create_tables,
}
use browser_visit_logger.Paths.{basename}

-- `WHERE url = ?`
abbrev pub visit_of : Text → Visit → Bool
visit_of url v = v.url == url

abbrev pub event_of : Text → Event → Bool
event_of url e = e.url == url

-- the primary key of an events table
abbrev pub same_event : Text → Text → Event → Bool
same_event url timestamp e = e.url == url && e.timestamp == timestamp

abbrev pub bump : Tag → Visit → Visit
bump read v = record v { read = v.read + 1 }
bump skimmed v = record v { skimmed = v.skimmed + 1 }

abbrev pub mark_of_interest : Visit → Visit
mark_of_interest v = record v { of_interest = some (codes "1") }

abbrev pub new_visit : Text → Text → Text → Visit
new_visit timestamp url title = record {
  url = url;
  timestamp = timestamp;
  title = title;
  of_interest = none;
  read = 0;
  skimmed = 0;
}

-- `visits` after `INSERT OR IGNORE INTO visits (url, timestamp, title)`
unfoldable pub add_visit : Text → Text → Text → List Visit → List Visit
unfolding text_eq insert_or_ignore
add_visit timestamp url title = insert_or_ignore (visit_of url) (new_visit timestamp url title)

unfoldable pub insert_visit : Text → Text → Text → Db → Db
unfolding add_visit
insert_visit timestamp url title db = record db { visits = add_visit timestamp url title db.visits }

-- `INSERT OR IGNORE` into an events table, and the counter when its `rowcount` is not 0.
unfoldable pub record_event : Tag → Event → Db → Db
unfolding text_eq exists insert_or_ignore update
record_event tag e db =
    if exists (same_event e.url e.timestamp) (events tag db)
    then db
    else with_events tag (insert_or_ignore (same_event e.url e.timestamp) e (events tag db))
        (record db { visits = update (visit_of e.url) (bump tag) db.visits })

module _ (downloads : Text) where
  -- `_insert_event`; the table and the column are the tag's.
  unfoldable pub insert_event : Tag → Text → Text → Text → Db → Db × Bool
  unfolding record_event basename
  insert_event tag url timestamp filename db =
      if exists (visit_of url) db.visits
      then (
        record_event tag
            (record {
              url = url;
              timestamp = timestamp;
              filename = basename filename;
              directory = downloads;
            })
            db,
        true,
      )
      else (db, false)

  -- `tag_visit`; `true` where a row was found.
  unfoldable pub tag_visit : Text → Text → Text → Text → Db → Db × Bool
  unfolding insert_event text_eq count
  tag_visit url tag timestamp filename db =
      if tag == codes "of_interest"
      then (
        record db { visits = update (visit_of url) mark_of_interest db.visits },
        ltb 0 (count (visit_of url) db.visits),
      )
      else if tag == codes "read"
      then insert_event read url timestamp filename db
      else if tag == codes "skimmed"
      then insert_event skimmed url timestamp filename db
      else (db, false)

-- `ensure_db`, with the schema of schema.sql
abbrev pub ensure_db : Text → DbFile → Db
ensure_db = create_tables
