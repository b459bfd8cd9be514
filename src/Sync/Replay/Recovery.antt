-- ===== src/Sync/Replay/Recovery.antt =====
-- Lines that were replayed once, and other lines after them, may be replayed again in any order: a
-- pull that is repeated after a crash does no harm.
use browser_visit_logger.Base.{
  Text, List, [], ◌∷◌, text_eq, Option, none, some, Bool, false, ◌==◌, ◌&&◌, ◌≡◌, true, arith, not,
  refl, ◌∙◌, ap, contains, All, sym,
}
use browser_visit_logger.Sync.Replay.Entries.{
  Entry, Mark, filed, plain, interest, apply_entry, apply_mark, apply_found, entry_of,
  replay_fields_lem,
}
use browser_visit_logger.Host.{
  insert_visit, add_visit, visit_of, mark_of_interest, same_event, new_visit, record_event, bump,
}
use browser_visit_logger.Database.{Visit, Db, events, Tag, read, skimmed, Event}
use browser_visit_logger.Base.Table.{update, exists, insert_or_ignore}
use browser_visit_logger.Base.Strings.{codes, split, tab}
use browser_visit_logger.Base.Table.Laws.{exists-append, exists-update}
use browser_visit_logger.Sync.Replay.{mark_url, pulled_event, replay_into_db}
use browser_visit_logger.Sync.Replay.Laws.{insert_known, known}
use mathlib.Core.Path.{subst}

abbrev is_one : Option Text → Bool
is_one none = false
is_one (some t) = t == codes "1"

-- A visit with the url that is not marked yet.
abbrev unmarked : Text → Visit → Bool
unmarked url v = v.url == url && not (is_one v.of_interest)

-- The effect of a mark is there.
abbrev pub HasMark : Text → Text → Mark → Db → Type 0
HasMark url timestamp plain db = Unit
HasMark url timestamp interest db = exists (unmarked url) db.visits ≡ false
HasMark url timestamp (filed tag filename) db =
    exists (same_event url timestamp) (events tag db) ≡ true

-- The effect of an entry is there: its visit, and its mark.
pub record IsSettled (e : Entry) (db : Db) : Type 0 where
  pub visited : exists (visit_of e.url) db.visits ≡ true
  pub marked : HasMark e.url e.timestamp e.mark db

-- Three facts about updates that no row needs.
update_of_none {ℓ} :
    {R : Type ℓ} (p q : R → Bool) (f : R → R)
    → ((r : R) → p r ≡ true → q r ≡ false → f r ≡ r)
    → (rows : List R) → exists q rows ≡ false
    → update p f rows ≡ rows
unfolding update exists
update_of_none p q f same [] h = refl
update_of_none p q f same (r ∷ rows) h = ground (arith, same r, update_of_none p q f same rows)

exists_after_update {ℓ} :
    {R : Type ℓ} (p q : R → Bool) (f : R → R)
    → ((r : R) → p r ≡ false → p (f r) ≡ false)
    → (rows : List R) → exists p rows ≡ false
    → exists p (update q f rows) ≡ false
unfolding update exists
exists_after_update p q f keeps [] h = refl
exists_after_update p q f keeps (r ∷ rows) h =
    ground (arith, keeps r, exists_after_update p q f keeps rows)

is_one_lem : (o : Option Text) → is_one o ≡ true → o ≡ some (codes "1")
is_one_lem none h = cc
is_one_lem (some t) h = ground arith

mark_of_marked :
    (url : Text) (v : Visit)
    → visit_of url v ≡ true
    → unmarked url v ≡ false
    → mark_of_interest v ≡ v
mark_of_marked url v h k = ground (arith, is_one_lem v.of_interest)

-- An insertion keeps the effects of an entry.
module _ (e : Entry) (timestamp url title : Text) (db : Db) (s : IsSettled e db) where
  visited-insert_visit : exists (visit_of e.url) (insert_visit timestamp url title db).visits ≡ true
  unfolding insert_visit add_visit insert_or_ignore
  visited-insert_visit = ground (
    arith,
    s.visited,
    exists-append (visit_of e.url) db.visits (new_visit timestamp url title ∷ []),
  )

  unmarked-insert_visit :
      exists (unmarked e.url) db.visits ≡ false
      → exists (unmarked e.url) (insert_visit timestamp url title db).visits ≡ false
  unfolding insert_visit add_visit insert_or_ignore exists
  unmarked-insert_visit h = ground (
    arith,
    s.visited,
    exists-append (unmarked e.url) db.visits (new_visit timestamp url title ∷ []),
  )

  IsSettled-insert_visit : IsSettled e (insert_visit timestamp url title db)
  unfolding insert_visit
  IsSettled-insert_visit = record { visited = visited-insert_visit; marked = keep e.mark s.marked }
    where
      keep :
          (m : Mark)
          → HasMark e.url e.timestamp m db
          → HasMark e.url e.timestamp m (insert_visit timestamp url title db)
      keep plain h = tt
      keep interest h = unmarked-insert_visit h
      keep (filed read f) h = h
      keep (filed skimmed f) h = h

unmarked-mark :
    (url other : Text) (v : Visit)
    → unmarked url v ≡ false
    → unmarked url (mark_of_interest v) ≡ false
unmarked-mark url other v h = ground arith

-- So does a mark.
module _ (e : Entry) (url : Text) (db : Db) (s : IsSettled e db) where
  IsSettled-mark_url : IsSettled e (mark_url url db)
  IsSettled-mark_url = record {
    visited =
        exists-update (visit_of e.url) (visit_of url) mark_of_interest (λ r. refl) db.visits
        ∙ s.visited;
    marked = keep e.mark s.marked;
  }
    where
      keep :
          (m : Mark)
          → HasMark e.url e.timestamp m db
          → HasMark e.url e.timestamp m (mark_url url db)
      keep plain h = tt
      keep interest h =
          exists_after_update (unmarked e.url) (visit_of url) mark_of_interest
            (unmarked-mark e.url url) db.visits h
      keep (filed read f) h = h
      keep (filed skimmed f) h = h

unmarked-bump : (url : Text) (tag : Tag) (v : Visit) → unmarked url (bump tag v) ≡ unmarked url v
unmarked-bump url read v = refl
unmarked-bump url skimmed v = refl

visited-bump : (url : Text) (tag : Tag) (v : Visit) → visit_of url (bump tag v) ≡ visit_of url v
visited-bump url read v = refl
visited-bump url skimmed v = refl

-- A query on the visits that no counter changes sees no event being recorded.
visits-record_event :
    (p : Visit → Bool) (tag : Tag) (e : Event) (db : Db)
    → ((v : Visit) → p (bump tag v) ≡ p v)
    → exists p (record_event tag e db).visits ≡ exists p db.visits
unfolding record_event
visits-record_event p read e db same =
    ground (arith, exists-update p (visit_of e.url) (bump read) same db.visits)
visits-record_event p skimmed e db same =
    ground (arith, exists-update p (visit_of e.url) (bump skimmed) same db.visits)

-- No recorded event gets lost.
events-record_event :
    (p : Event → Bool) (tag other : Tag) (e : Event) (db : Db)
    → exists p (events other db) ≡ true
    → exists p (events other (record_event tag e db)) ≡ true
unfolding record_event insert_or_ignore
events-record_event p read read e db h =
    ground (arith, exists-append p db.read_events.rows (e ∷ []))
events-record_event p read skimmed e db h = ground arith
events-record_event p skimmed read e db h = ground arith
events-record_event p skimmed skimmed e db h =
    ground (arith, exists-append p db.skimmed_events.rows (e ∷ []))

module _ (e : Entry) (tag : Tag) (event : Event) (db : Db) (s : IsSettled e db) where
  IsSettled-record_event : IsSettled e (record_event tag event db)
  IsSettled-record_event = record {
    visited =
        visits-record_event (visit_of e.url) tag event db (visited-bump e.url tag) ∙ s.visited;
    marked = keep e.mark s.marked;
  }
    where
      keep :
          (m : Mark)
          → HasMark e.url e.timestamp m db
          → HasMark e.url e.timestamp m (record_event tag event db)
      keep plain h = tt
      keep interest h =
          visits-record_event (unmarked e.url) tag event db (unmarked-bump e.url tag) ∙ h
      keep (filed other f) h =
          events-record_event (same_event e.url e.timestamp) tag other event db h

IsSettled-apply_mark :
    (e : Entry) (url timestamp : Text) (m : Mark) (db : Db)
    → IsSettled e db
    → IsSettled e (apply_mark url timestamp m db)
unfolding apply_mark
IsSettled-apply_mark e url timestamp plain db s = s
IsSettled-apply_mark e url timestamp interest db s = IsSettled-mark_url e url db s
IsSettled-apply_mark e url timestamp (filed tag f) db s =
    IsSettled-record_event e tag (pulled_event tag db url timestamp f) db s

-- A later line keeps the effect of an entry.
IsSettled-apply_found :
    (e : Entry) (later : Option Entry) (db : Db)
    → IsSettled e db
    → IsSettled e (apply_found later db)
unfolding apply_entry
IsSettled-apply_found e none db s = s
IsSettled-apply_found e (some l) db s =
    IsSettled-apply_mark e l.url l.timestamp l.mark (insert_visit l.timestamp l.url l.title db)
      (IsSettled-insert_visit e l.timestamp l.url l.title db s)

marked-mark_url :
    (url : Text) (rows : List Visit)
    → exists (unmarked url) (update (visit_of url) mark_of_interest rows) ≡ false
unfolding exists update
marked-mark_url url [] = refl
marked-mark_url url (r ∷ rows) = ground (arith, marked-mark_url url rows)

event_there :
    (tag : Tag) (e : Event) (db : Db)
    → exists (same_event e.url e.timestamp) (events tag (record_event tag e db)) ≡ true
unfolding record_event insert_or_ignore
event_there read e db =
    ground (arith, exists-append (same_event e.url e.timestamp) db.read_events.rows (e ∷ []))
event_there skimmed e db =
    ground (arith, exists-append (same_event e.url e.timestamp) db.skimmed_events.rows (e ∷ []))

HasMark-apply_mark :
    (url timestamp : Text) (m : Mark) (db : Db)
    → HasMark url timestamp m (apply_mark url timestamp m db)
unfolding apply_mark
HasMark-apply_mark url timestamp plain db = tt
HasMark-apply_mark url timestamp interest db = marked-mark_url url db.visits
HasMark-apply_mark url timestamp (filed tag f) db =
    event_there tag (pulled_event tag db url timestamp f) db

-- Applying an entry brings its effect about.
IsSettled-apply_entry : (e : Entry) (db : Db) → IsSettled e (apply_entry e db)
unfolding apply_entry
IsSettled-apply_entry e db = record {
  visited =
      (IsSettled-apply_mark (record e { mark = plain }) e.url e.timestamp e.mark seen
        (record { visited = known e.timestamp e.url e.title db; marked = tt })).visited;
  marked = HasMark-apply_mark e.url e.timestamp e.mark seen;
}
  where
    seen : Db
    seen = insert_visit e.timestamp e.url e.title db

apply_mark-HasMark :
    (url timestamp : Text) (m : Mark) (db : Db)
    → HasMark url timestamp m db
    → apply_mark url timestamp m db ≡ db
unfolding apply_mark record_event
apply_mark-HasMark url timestamp plain db h = refl
apply_mark-HasMark url timestamp interest db h =
    ap (λ (rows : List Visit). record db { visits = rows })
      (update_of_none (visit_of url) (unmarked url) mark_of_interest (mark_of_marked url) db.visits
        h)
apply_mark-HasMark url timestamp (filed tag f) db h = rw h refl

-- Where the effect is there, applying the entry changes nothing.
apply_entry-IsSettled : (e : Entry) (db : Db) → IsSettled e db → apply_entry e db ≡ db
unfolding apply_entry
apply_entry-IsSettled e db s =
    ap (apply_mark e.url e.timestamp e.mark) (insert_known e.timestamp e.url e.title db s.visited)
    ∙ apply_mark-HasMark e.url e.timestamp e.mark db s.marked

abbrev FoundDone : Option Entry → Db → Type 0
FoundDone none db = Unit
FoundDone (some e) db = IsSettled e db

-- A line whose effect is there.
abbrev IsDone : Text → Db → Type 0
IsDone raw db = FoundDone (entry_of (split tab raw)) db

-- The lines of a pull, one after the other.
unfoldable pub replay_all : List Text → Db → Db
replay_all [] db = db
replay_all (raw ∷ rest) db = replay_all rest (replay_into_db raw db)

FoundDone-apply_found : (o : Option Entry) (db : Db) → FoundDone o (apply_found o db)
FoundDone-apply_found none db = tt
FoundDone-apply_found (some e) db = IsSettled-apply_entry e db

FoundDone-later :
    (o later : Option Entry) (db : Db) → FoundDone o db → FoundDone o (apply_found later db)
FoundDone-later none later db d = tt
FoundDone-later (some e) later db d = IsSettled-apply_found e later db d

apply_found-FoundDone : (o : Option Entry) (db : Db) → FoundDone o db → apply_found o db ≡ db
apply_found-FoundDone none db d = refl
apply_found-FoundDone (some e) db d = apply_entry-IsSettled e db d

module _ (raw : Text) (db : Db) where
  IsDone-replay_into_db : IsDone raw (replay_into_db raw db)
  unfolding replay_into_db
  IsDone-replay_into_db =
      rw (replay_fields_lem (split tab raw) db)
        (FoundDone-apply_found (entry_of (split tab raw)) db)

  IsDone-later : (other : Text) → IsDone raw db → IsDone raw (replay_into_db other db)
  unfolding replay_into_db
  IsDone-later other d =
      rw (replay_fields_lem (split tab other) db)
        (FoundDone-later (entry_of (split tab raw)) (entry_of (split tab other)) db d)

  replay_into_db-IsDone : IsDone raw db → replay_into_db raw db ≡ db
  unfolding replay_into_db
  replay_into_db-IsDone d =
      replay_fields_lem (split tab raw) db ∙ apply_found-FoundDone (entry_of (split tab raw)) db d

IsDone-replay_all :
    (raw : Text) (ls : List Text) (db : Db) → IsDone raw db → IsDone raw (replay_all ls db)
unfolding replay_all
IsDone-replay_all raw [] db d = d
IsDone-replay_all raw (l ∷ ls) db d =
    IsDone-replay_all raw ls (replay_into_db l db) (IsDone-later raw db l d)

IsDone-member :
    (raw : Text) (ls : List Text) (db : Db) → contains ls raw ≡ true → IsDone raw (replay_all ls db)
unfolding replay_all
IsDone-member raw [] db h = cc
IsDone-member raw (l ∷ ls) db h = elim (text_eq.dec raw l) [
  | yes same ↦
      subst (λ x. IsDone x (replay_all ls (replay_into_db l db))) (sym same)
        (IsDone-replay_all l ls (replay_into_db l db) (IsDone-replay_into_db l db))
  | no other ↦ IsDone-member raw ls (replay_into_db l db) (ground arith)
]

-- Lines that have been replayed, other lines after or between them, change nothing when any of them
-- are replayed again, in whatever order and however often.
pub replay_all_again :
    (lines again : List Text) (db : Db)
    → All (λ raw. contains lines raw ≡ true) again
    → replay_all again (replay_all lines db) ≡ replay_all lines db
unfolding replay_all
replay_all_again lines [] db h = refl
replay_all_again lines (raw ∷ again) db h =
    ap (replay_all again)
      (replay_into_db-IsDone raw (replay_all lines db) (IsDone-member raw lines db h.0))
    ∙ replay_all_again lines again db h.1
