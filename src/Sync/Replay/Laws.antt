-- ===== src/Sync/Replay/Laws.antt =====
-- Pulled lines keep the counters right, and a line that is pulled again changes nothing.
use browser_visit_logger.Base.{
  Bool, true, false, List, [], ◌∷◌, text_eq, Text, ◌≡◌, true, Bool, if◌then◌else◌, arith, ◌==◌,
  refl, ap, ◌∙◌,
}
use browser_visit_logger.Host.{
  insert_visit, add_visit, visit_of, new_visit, record_event, mark_of_interest, bump,
}
use browser_visit_logger.Sync.Replay.{
  replay_into_db, replay_tag, mark_url, replay_fields, pulled_event,
}
use browser_visit_logger.Database.{Db, read, skimmed, Tag, Event, Visit}
use browser_visit_logger.Base.Table.{exists, update, insert_or_ignore}
use browser_visit_logger.Host.Counters.{
  IsConsistent, IsConsistent-mark, IsConsistent-record_event, IsConsistent-insert_visit,
}
use browser_visit_logger.Base.Strings.{split, tab, codes}
use browser_visit_logger.Base.Table.Laws.{exists-insert_or_ignore, exists-update}
use browser_visit_logger.Host.Repeats.{first_visit_wins, record_event_again}

pub known :
    (timestamp url title : Text) (db : Db)
    → exists (visit_of url) (insert_visit timestamp url title db).visits ≡ true
unfolding insert_visit add_visit
known timestamp url title db =
    exists-insert_or_ignore (visit_of url) (new_visit timestamp url title) (ground arith) db.visits

IsConsistent-replay_tag :
    (url timestamp tag filename : Text) (db : Db)
    → exists (visit_of url) db.visits ≡ true
    → IsConsistent db
    → IsConsistent (replay_tag url timestamp tag filename db)
unfolding replay_tag
IsConsistent-replay_tag url timestamp tag filename db k c =
    choose (tag == codes "of_interest") (tag == codes "read") (tag == codes "skimmed")
  where
    choose :
        (a b d : Bool)
        → IsConsistent (
            if a
            then mark_url url db
            else if b
            then record_event read (pulled_event read db url timestamp filename) db
            else if d
            then record_event skimmed (pulled_event skimmed db url timestamp filename) db
            else db)
    choose true b d = IsConsistent-mark url db c
    choose false true d =
        IsConsistent-record_event read (pulled_event read db url timestamp filename) db k c
    choose false false true =
        IsConsistent-record_event skimmed (pulled_event skimmed db url timestamp filename) db k c
    choose false false false = c

IsConsistent-replay_fields :
    (fields : List Text) (db : Db) → IsConsistent db → IsConsistent (replay_fields fields db)
unfolding replay_fields
IsConsistent-replay_fields [] db c = c
IsConsistent-replay_fields (a ∷ []) db c = c
IsConsistent-replay_fields (a ∷ b ∷ []) db c = c
IsConsistent-replay_fields (a ∷ b ∷ d ∷ []) db c = c
IsConsistent-replay_fields (id ∷ timestamp ∷ url ∷ title ∷ []) db c =
    IsConsistent-insert_visit timestamp url title db c
IsConsistent-replay_fields (id ∷ timestamp ∷ url ∷ title ∷ tag ∷ []) db c =
    one (tag == codes "of_interest")
  where
    inserted : IsConsistent (insert_visit timestamp url title db)
    inserted = IsConsistent-insert_visit timestamp url title db c

    one :
        (b : Bool)
        → IsConsistent (
            if b
            then mark_url url (insert_visit timestamp url title db)
            else insert_visit timestamp url title db)
    one true = IsConsistent-mark url _ inserted
    one false = inserted
IsConsistent-replay_fields (id ∷ timestamp ∷ url ∷ title ∷ tag ∷ filename ∷ rest) db c =
    IsConsistent-replay_tag url timestamp tag filename (insert_visit timestamp url title db)
      (known timestamp url title db) (IsConsistent-insert_visit timestamp url title db c)

-- Whatever a pulled line holds, every visit's read and skimmed counters stay the numbers of the
-- visit's events, and no url and no event key comes to occur twice.
pub IsConsistent-replay_into_db :
    (raw : Text) (db : Db) → IsConsistent db → IsConsistent (replay_into_db raw db)
unfolding replay_into_db
IsConsistent-replay_into_db raw db c = IsConsistent-replay_fields (split tab raw) db c

pub insert_known :
    (timestamp url title : Text) (db : Db)
    → exists (visit_of url) db.visits ≡ true
    → insert_visit timestamp url title db ≡ db
unfolding insert_visit add_visit insert_or_ignore
insert_known timestamp url title db h = rw h refl

pub update_again {ℓ} :
    {R : Type ℓ} (p : R → Bool) (f : R → R)
    → ((r : R) → f (f r) ≡ f r)
    → (rows : List R) → update p f (update p f rows) ≡ update p f rows
unfolding update
update_again p f twice [] = refl
update_again p f twice (r ∷ rows) = ground (arith, twice r, update_again p f twice rows)

known_after_mark :
    (url : Text) (db : Db)
    → exists (visit_of url) (mark_url url db).visits ≡ exists (visit_of url) db.visits
known_after_mark url db =
    exists-update (visit_of url) (visit_of url) mark_of_interest (λ r. refl) db.visits

known_after_event :
    (tag : Tag) (url : Text) (e : Event) (db : Db)
    → exists (visit_of url) (record_event tag e db).visits ≡ exists (visit_of url) db.visits
unfolding record_event
known_after_event read url e db =
    ground (arith, exists-update (visit_of url) (visit_of e.url) (bump read) (λ r. refl) db.visits)
known_after_event skimmed url e db =
    ground
      (arith, exists-update (visit_of url) (visit_of e.url) (bump skimmed) (λ r. refl) db.visits)

mark_again : (url : Text) (db : Db) → mark_url url (mark_url url db) ≡ mark_url url db
mark_again url db =
    ap (λ (rows : List Visit). record db { visits = rows })
      (update_again (visit_of url) mark_of_interest (λ r. refl) db.visits)

-- A tag on a known visit, then the same line from its start.
replay_tag_again :
    (url timestamp title tag filename : Text) (db : Db)
    → exists (visit_of url) db.visits ≡ true
    → replay_tag url timestamp tag filename
        (insert_visit timestamp url title (replay_tag url timestamp tag filename db))
      ≡ replay_tag url timestamp tag filename db
unfolding replay_tag
replay_tag_again url timestamp title tag filename db k =
    choose (tag == codes "of_interest") (tag == codes "read") (tag == codes "skimmed")
  where
    e : Tag → Db → Event
    e t x = pulled_event t x url timestamp filename

    go : Bool → Bool → Bool → Db → Db
    go a b d x =
        if a
        then mark_url url x
        else if b
        then record_event read (e read x) x
        else if d
        then record_event skimmed (e skimmed x) x
        else x

    choose :
        (a b d : Bool) → go a b d (insert_visit timestamp url title (go a b d db)) ≡ go a b d db
    choose true b d =
        ap (mark_url url) (insert_known timestamp url title _ (known_after_mark url db ∙ k))
        ∙ mark_again url db
    choose false true d =
        ap (λ x. record_event read (e read x) x)
          (insert_known timestamp url title _ (known_after_event read url (e read db) db ∙ k))
        ∙ record_event_again read (e read db) _ db refl refl
    choose false false true =
        ap (λ x. record_event skimmed (e skimmed x) x)
          (insert_known timestamp url title _ (known_after_event skimmed url (e skimmed db) db ∙ k))
        ∙ record_event_again skimmed (e skimmed db) _ db refl refl
    choose false false false = insert_known timestamp url title db k

replay_fields_again :
    (fields : List Text) (db : Db)
    → replay_fields fields (replay_fields fields db) ≡ replay_fields fields db
unfolding replay_fields
replay_fields_again [] db = refl
replay_fields_again (a ∷ []) db = refl
replay_fields_again (a ∷ b ∷ []) db = refl
replay_fields_again (a ∷ b ∷ d ∷ []) db = refl
replay_fields_again (id ∷ timestamp ∷ url ∷ title ∷ []) db =
    first_visit_wins timestamp url title timestamp title db
replay_fields_again (id ∷ timestamp ∷ url ∷ title ∷ tag ∷ []) db = one (tag == codes "of_interest")
  where
    x : Db
    x = insert_visit timestamp url title db

    go : Bool → Db → Db
    go b y = if b then mark_url url y else y

    one : (b : Bool) → go b (insert_visit timestamp url title (go b x)) ≡ go b x
    one true =
        ap (mark_url url) (
          insert_known timestamp url title _
            (known_after_mark url x ∙ known timestamp url title db))
        ∙ mark_again url x
    one false = first_visit_wins timestamp url title timestamp title db
replay_fields_again (id ∷ timestamp ∷ url ∷ title ∷ tag ∷ filename ∷ rest) db =
    replay_tag_again url timestamp title tag filename (insert_visit timestamp url title db)
      (known timestamp url title db)

-- A line that is pulled and applied again right away changes nothing: no second visit, no second
-- event, and no counter counts twice.
pub replay_into_db_again :
    (raw : Text) (db : Db) → replay_into_db raw (replay_into_db raw db) ≡ replay_into_db raw db
unfolding replay_into_db
replay_into_db_again raw db = replay_fields_again (split tab raw) db
