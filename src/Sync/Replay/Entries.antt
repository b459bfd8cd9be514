-- ===== src/Sync/Replay/Entries.antt =====
-- What a pulled line says, apart from how the code tells lines from one another: nothing, or a visit
-- with a mark.
use browser_visit_logger.Base.{
  Text, List, [], ◌∷◌, text_eq, Option, none, some, if◌then◌else◌, ◌==◌, ◌≡◌, arith, refl,
}
use browser_visit_logger.Sync.Replay.{replay_fields, replay_tag, mark_url, pulled_event}
use browser_visit_logger.Database.{Db, Tag, read, skimmed}
use browser_visit_logger.Host.{insert_visit, record_event}
use browser_visit_logger.Base.Strings.{codes}

pub data Mark : Type 0 where
  plain : Mark
  interest : Mark
  filed : Tag → Text → Mark

pub record Entry : Type 0 where
  pub url : Text
  pub timestamp : Text
  pub title : Text
  pub mark : Mark

-- The mark of a line with a file name.
pub mark_of : Text → Text → Mark
unfolding text_eq
mark_of tag filename =
    if tag == codes "of_interest"
    then interest
    else if tag == codes "read"
    then filed read filename
    else if tag == codes "skimmed"
    then filed skimmed filename
    else plain

pub entry_of : List Text → Option Entry
unfolding text_eq
entry_of (id ∷ timestamp ∷ url ∷ title ∷ []) =
    some (record { url = url; timestamp = timestamp; title = title; mark = plain })
entry_of (id ∷ timestamp ∷ url ∷ title ∷ tag ∷ []) = some (record {
  url = url;
  timestamp = timestamp;
  title = title;
  mark = if tag == codes "of_interest" then interest else plain;
})
entry_of (id ∷ timestamp ∷ url ∷ title ∷ tag ∷ filename ∷ rest) =
    some (record { url = url; timestamp = timestamp; title = title; mark = mark_of tag filename })
entry_of _ = none

unfoldable pub apply_mark : Text → Text → Mark → Db → Db
apply_mark url timestamp plain db = db
apply_mark url timestamp interest db = mark_url url db
apply_mark url timestamp (filed tag filename) db =
    record_event tag (pulled_event tag db url timestamp filename) db

unfoldable pub apply_entry : Entry → Db → Db
apply_entry e db = apply_mark e.url e.timestamp e.mark (insert_visit e.timestamp e.url e.title db)

abbrev pub apply_found : Option Entry → Db → Db
apply_found none db = db
apply_found (some e) db = apply_entry e db

replay_tag_lem :
    (url timestamp tag filename : Text) (db : Db)
    → replay_tag url timestamp tag filename db ≡ apply_mark url timestamp (mark_of tag filename) db
unfolding replay_tag mark_of apply_mark
replay_tag_lem url timestamp tag filename db = ground arith

-- The code's ladder of tests is the reading of the line followed by its effect.
pub replay_fields_lem :
    (fields : List Text) (db : Db) → replay_fields fields db ≡ apply_found (entry_of fields) db
unfolding replay_fields entry_of apply_entry apply_mark
replay_fields_lem [] db = refl
replay_fields_lem (a ∷ []) db = refl
replay_fields_lem (a ∷ b ∷ []) db = refl
replay_fields_lem (a ∷ b ∷ c ∷ []) db = refl
replay_fields_lem (id ∷ timestamp ∷ url ∷ title ∷ []) db = refl
replay_fields_lem (id ∷ timestamp ∷ url ∷ title ∷ tag ∷ []) db = ground arith
replay_fields_lem (id ∷ timestamp ∷ url ∷ title ∷ tag ∷ filename ∷ rest) db =
    replay_tag_lem url timestamp tag filename (insert_visit timestamp url title db)
