-- ===== src/Host/Repeats.antt =====
-- Applying the same log record again changes nothing.
use browser_visit_logger.Base.{◌≡◌, Text, List, [], ◌∷◌, text_eq, nat_eq, arith, ap}
use browser_visit_logger.Host.{
  record_event, insert_visit, add_visit, same_event, visit_of, new_visit,
}
use browser_visit_logger.Database.{Tag, Event, Db, Visit, read, skimmed}
use browser_visit_logger.Base.Table.Laws.{exists-append, insert_or_ignore_again}

module _ (timestamp url title : Text) where
  -- The first insertion of a url decides its timestamp and its title.
  pub first_visit_wins :
      (later other_title : Text) (db : Db)
      → insert_visit later url other_title (insert_visit timestamp url title db)
        ≡ insert_visit timestamp url title db
  unfolding insert_visit add_visit
  first_visit_wins later other_title db =
      ap (λ (rows : List Visit). record db { visits = rows })
        (insert_or_ignore_again (visit_of url) (new_visit timestamp url title) (ground arith)
          (new_visit later url other_title) db.visits)

-- A recorded event is not recorded again, and its visit's counter stays.
pub record_event_again :
    (tag : Tag) (e f : Event) (db : Db)
    → f.url ≡ e.url
    → f.timestamp ≡ e.timestamp
    → record_event tag f (record_event tag e db) ≡ record_event tag e db
unfolding record_event
record_event_again read e f db u t =
    ground (arith, exists-append (same_event e.url e.timestamp) db.read_events.rows (e ∷ []))
record_event_again skimmed e f db u t =
    ground (arith, exists-append (same_event e.url e.timestamp) db.skimmed_events.rows (e ∷ []))
