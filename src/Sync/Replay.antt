-- ===== src/Sync/Replay.antt =====
-- `replay_into_db`: a pulled line applied to the local database.
pub mod Laws
pub mod Entries
pub mod Recovery
use browser_visit_logger.Base.{Text, ◌∷◌, text_eq, if◌then◌else◌, List, [], ◌==◌}
use browser_visit_logger.Database.{Db, Event, Tag, read, skimmed}
use browser_visit_logger.Base.Strings.{split, tab, codes}
use browser_visit_logger.Base.Table.{update}
use browser_visit_logger.Host.{visit_of, mark_of_interest, record_event, insert_visit}

-- The DEFAULT of the column `directory`.
abbrev pub default_of : Tag → Db → Text
default_of read db = db.read_events.default_directory
default_of skimmed db = db.skimmed_events.default_directory

-- The INSERT names no directory, so the row gets the DEFAULT of its table.
abbrev pub pulled_event : Tag → Db → Text → Text → Text → Event
pulled_event tag db url timestamp filename = record {
  url = url;
  timestamp = timestamp;
  filename = filename;
  directory = default_of tag db;
}

abbrev pub mark_url : Text → Db → Db
mark_url url db = record db { visits = update (visit_of url) mark_of_interest db.visits }

-- What a line with a file name does after its visit.
unfoldable pub replay_tag : Text → Text → Text → Text → Db → Db
unfolding text_eq
replay_tag url timestamp tag filename db =
    if tag == codes "of_interest"
    then mark_url url db
    else if tag == codes "read"
    then record_event read (pulled_event read db url timestamp filename) db
    else if tag == codes "skimmed"
    then record_event skimmed (pulled_event skimmed db url timestamp filename) db
    else db

-- By the number of fields: results and short lines are passed over.
unfoldable pub replay_fields : List Text → Db → Db
unfolding text_eq
replay_fields (id ∷ timestamp ∷ url ∷ title ∷ []) db = insert_visit timestamp url title db
replay_fields (id ∷ timestamp ∷ url ∷ title ∷ tag ∷ []) db =
    let seen = insert_visit timestamp url title db in
    if tag == codes "of_interest" then mark_url url seen else seen
replay_fields (id ∷ timestamp ∷ url ∷ title ∷ tag ∷ filename ∷ rest) db =
    replay_tag url timestamp tag filename (insert_visit timestamp url title db)
replay_fields _ db = db

unfoldable pub replay_into_db : Text → Db → Db
replay_into_db raw db = replay_fields (split tab raw) db
