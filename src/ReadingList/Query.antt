-- ===== src/ReadingList/Query.antt =====
-- `_QUERY` and `_fetch_rows`.
pub mod Laws
use browser_visit_logger.Base.{
  Text, ℕ, List, [], ◌∷◌, text_eq, true, false, none, some, Option, if◌then◌else◌, nat_eq, Bool,
  ltb, keep, ◌==◌, ◌&&◌, map, not,
}
use browser_visit_logger.Database.{Db, Event, Visit}
use browser_visit_logger.Base.Strings.{text_le, text_lt}
use browser_visit_logger.Base.Sorting.{sorted}

-- A row of the list.
pub record Row : Type 0 where
  pub url : Text
  pub title : Text
  pub first_visited : Text
  pub last_skimmed : Option Text

abbrev pub is_set : Option Text → Bool
is_set none = false
is_set (some t) = true

-- The WHERE clause.
unfoldable pub is_wanted : Visit → Bool
unfolding nat_eq
is_wanted v = is_set v.of_interest && v.read == 0

abbrev pub later : Text → Option Text → Text
later t none = t
later t (some u) = if text_lt t u then u else t

-- `MAX(s.timestamp)` over the events of the url that the LEFT JOIN finds
unfoldable pub last_skim : Text → List Event → Option Text
unfolding text_eq
last_skim url [] = none
last_skim url (e ∷ events) =
    let rest = last_skim url events in if e.url == url then some (later e.timestamp rest) else rest

abbrev pub row_of : Db → Visit → Row
row_of db v = record {
  url = v.url;
  title = v.title;
  first_visited = v.timestamp;
  last_skimmed = last_skim v.url db.skimmed_events.rows;
}

-- Latest first; rows with one time stay in the order of the query.
abbrev pub later_first : Row → Row → Bool
later_first a b = text_le b.first_visited a.first_visited

abbrev pub is_skimmed : Visit → Bool
is_skimmed v = ltb 0 v.skimmed

-- `_fetch_rows`: a url is a primary key, so each visit is a group of its own. SQLite leaves the order
-- of the groups open; here it is the order of the table.
unfoldable pub fetch_rows : Db → List Row × List Row
fetch_rows db =
    let wanted = keep is_wanted db.visits in
    (
      sorted later_first (map (row_of db) (keep is_skimmed wanted)),
      sorted later_first (map (row_of db) (keep (λ v. not (is_skimmed v)) wanted)),
    )
