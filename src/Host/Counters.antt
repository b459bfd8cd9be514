-- ===== src/Host/Counters.antt =====
-- The counters of `visits` count the rows of the events tables.
use browser_visit_logger.Base.{
  ◌≤◌, ◌≡◌, Text, false, List, arith, text_eq, All, true, Bool, sym, ap, Bool-cases, inl, inr,
  All-append, ◌++◌, ◌∷◌, refl, ◌+◌, ◌==◌, [], ◌∙◌,
}
use browser_visit_logger.Base.Table.{exists, count, update, insert_or_ignore}
use browser_visit_logger.Base.Table.Laws.{
  count-append, count_of_absent, count-update, exists-update, exists-append, All-update,
}
use browser_visit_logger.Database.{Visit, Event, Db, Tag, read, skimmed, counter}
use browser_visit_logger.Host.{
  visit_of, event_of, same_event, add_visit, bump, new_visit, record_event, tag_visit, insert_visit,
  insert_event, mark_of_interest,
}
use browser_visit_logger.Base.Strings.{codes}

-- What holds of one events table and the visits.
pub record IsCounted (tag : Tag) (visits : List Visit) (rows : List Event) : Type 0 where
  -- No primary key occurs twice.
  pub unique : (url timestamp : Text) → count (same_event url timestamp) rows ≤ 1
  -- Every event has a visit with its url.
  pub known : (url : Text) → exists (visit_of url) visits ≡ false → count (event_of url) rows ≡ 0
  -- The counter of a visit is the number of the events with its url.
  pub counted : All (λ v. counter tag v ≡ count (event_of v.url) rows) visits

pub record IsConsistent (db : Db) : Type 0 where
  pub visits_unique : (url : Text) → count (visit_of url) db.visits ≤ 1
  pub reads : IsCounted read db.visits db.read_events.rows
  pub skims : IsCounted skimmed db.visits db.skimmed_events.rows

module _ (timestamp url title : Text) (visits : List Visit) where
  abbrev fresh : List Visit
  fresh = new_visit timestamp url title ∷ []

  visits_unique-add_visit :
      ((u : Text) → count (visit_of u) visits ≤ 1)
      → (u : Text) → count (visit_of u) (add_visit timestamp url title visits) ≤ 1
  unfolding add_visit count
  visits_unique-add_visit h u =
      ground
        (arith, count-append (visit_of u) visits fresh, count_of_absent (visit_of url) visits, h u)

  IsCounted-add_visit :
      (tag : Tag) (rows : List Event)
      → IsCounted tag visits rows
      → IsCounted tag (add_visit timestamp url title visits) rows
  unfolding add_visit
  IsCounted-add_visit tag rows c = elim (Bool-cases (exists (visit_of url) visits)) [
    | inl old ↦ rw old c
    | inr new ↦ rw new (record {
      unique = c.unique;
      known = λ u h. c.known u (ground (arith, exists-append (visit_of u) visits fresh));
      counted = All-append _ visits fresh c.counted (count_new tag (c.known url new), tt);
    })
  ]
    where
      count_new :
          (tag : Tag)
          → count (event_of url) rows ≡ 0
          → counter tag (new_visit timestamp url title) ≡ count (event_of url) rows
      count_new read h = sym h
      count_new skimmed h = sym h

-- An update of `visits` that keeps the urls and the tag's counter.
module _ (tag : Tag) (q : Visit → Bool) (f : Visit → Visit) (visits : List Visit) where
  IsCounted-update :
      ((v : Visit) → (f v).url ≡ v.url)
      → ((v : Visit) → counter tag (f v) ≡ counter tag v)
      → (rows : List Event) → IsCounted tag visits rows
      → IsCounted tag (update q f visits) rows
  IsCounted-update same_url same_counter rows c = record {
    unique = c.unique;
    known = λ u h.
        c.known u
          (sym (exists-update (visit_of u) q f (λ v. ap (λ x. x == u) (same_url v)) visits) ∙ h);
    counted =
        All-update _ _ q f
          (λ v h _. same_counter v ∙ h ∙ ap (λ x. count (event_of x) rows) (sym (same_url v)))
          (λ v h _. h) visits c.counted;
  }

visits_unique-update :
    (q : Visit → Bool) (f : Visit → Visit) (visits : List Visit)
    → ((v : Visit) → (f v).url ≡ v.url)
    → ((u : Text) → count (visit_of u) visits ≤ 1)
    → (u : Text) → count (visit_of u) (update q f visits) ≤ 1
visits_unique-update q f visits same_url h u =
    rw (count-update (visit_of u) q f (λ v. ap (λ x. x == u) (same_url v)) visits) (h u)

bump_url : (tag : Tag) (v : Visit) → (bump tag v).url ≡ v.url
bump_url read v = refl
bump_url skimmed v = refl

counter-bump : (tag : Tag) (v : Visit) → counter tag (bump tag v) ≡ counter tag v + 1
counter-bump read v = refl
counter-bump skimmed v = refl

-- A new event whose visit is there, and the visit's counter one higher.
module _ (tag : Tag) (e : Event) (visits : List Visit) (rows : List Event) where
  abbrev raised : List Visit
  raised = update (visit_of e.url) (bump tag) visits

  IsCounted-append :
      exists (visit_of e.url) visits ≡ true
      → exists (same_event e.url e.timestamp) rows ≡ false
      → IsCounted tag visits rows
      → IsCounted tag raised (rows ++ e ∷ [])
  unfolding count
  IsCounted-append there absent c = record {
    unique = λ u t. ground (
      arith,
      count-append (same_event u t) rows (e ∷ []),
      c.unique u t,
      count_of_absent (same_event e.url e.timestamp) rows,
    );
    known = λ u h. ground (
      arith,
      count-append (event_of u) rows (e ∷ []),
      c.known u,
      exists-update (visit_of u) (visit_of e.url) (bump tag)
          (λ v. ap (λ x. x == u) (bump_url tag v)) visits,
    );
    counted =
        All-update _ _ (visit_of e.url) (bump tag)
          (λ v h hit.
            rw (bump_url, counter-bump)
              (ground (arith, h, count-append (event_of v.url) rows (e ∷ []))))
          (λ v h miss. ground (arith, h, count-append (event_of v.url) rows (e ∷ []))) visits
          c.counted;
  }

-- The insertion of a visit keeps a database consistent.
pub IsConsistent-insert_visit :
    (timestamp url title : Text) (db : Db)
    → IsConsistent db
    → IsConsistent (insert_visit timestamp url title db)
unfolding insert_visit
IsConsistent-insert_visit timestamp url title db c = record {
  visits_unique = visits_unique-add_visit timestamp url title db.visits c.visits_unique;
  reads = IsCounted-add_visit timestamp url title db.visits read _ c.reads;
  skims = IsCounted-add_visit timestamp url title db.visits skimmed _ c.skims;
}

-- An update of the visits that keeps urls and counters keeps a database consistent.
pub IsConsistent-mark :
    (url : Text) (db : Db)
    → IsConsistent db
    → IsConsistent (record db { visits = update (visit_of url) mark_of_interest db.visits })
IsConsistent-mark url db c = record {
  visits_unique = visits_unique-update _ _ db.visits (λ v. refl) c.visits_unique;
  reads = IsCounted-update read _ _ db.visits (λ v. refl) (λ v. refl) _ c.reads;
  skims = IsCounted-update skimmed _ _ db.visits (λ v. refl) (λ v. refl) _ c.skims;
}

-- So does a recorded event whose url has a visit.
pub IsConsistent-record_event :
    (tag : Tag) (e : Event) (db : Db)
    → exists (visit_of e.url) db.visits ≡ true
    → IsConsistent db
    → IsConsistent (record_event tag e db)
unfolding record_event insert_or_ignore
IsConsistent-record_event read e db there c =
    elim (Bool-cases (exists (same_event e.url e.timestamp) db.read_events.rows)) [
      | inl old ↦ rw old c
      | inr new ↦ rw new (record {
        visits_unique = visits_unique-update _ _ db.visits (bump_url read) c.visits_unique;
        reads = IsCounted-append read e db.visits _ there new c.reads;
        skims = IsCounted-update skimmed _ _ db.visits (λ v. refl) (λ v. refl) _ c.skims;
      })
    ]
IsConsistent-record_event skimmed e db there c =
    elim (Bool-cases (exists (same_event e.url e.timestamp) db.skimmed_events.rows)) [
      | inl old ↦ rw old c
      | inr new ↦ rw new (record {
        visits_unique = visits_unique-update _ _ db.visits (bump_url skimmed) c.visits_unique;
        reads = IsCounted-update read _ _ db.visits (λ v. refl) (λ v. refl) _ c.reads;
        skims = IsCounted-append skimmed e db.visits _ there new c.skims;
      })
    ]

module _ (downloads : Text) where
  IsConsistent-insert_event :
      (tag : Tag) (url timestamp filename : Text) (db : Db)
      → IsConsistent db
      → IsConsistent (insert_event downloads tag url timestamp filename db).0
  unfolding insert_event
  IsConsistent-insert_event tag url timestamp filename db c =
      elim (Bool-cases (exists (visit_of url) db.visits)) [
        | inl there ↦ rw there (IsConsistent-record_event tag _ db there c)
        | inr absent ↦ rw absent c
      ]

  -- Whatever the tag, `tag_visit` keeps a database consistent.
  pub IsConsistent-tag_visit :
      (url tag timestamp filename : Text) (db : Db)
      → IsConsistent db
      → IsConsistent (tag_visit downloads url tag timestamp filename db).0
  unfolding tag_visit
  IsConsistent-tag_visit url tag timestamp filename db c =
      elim (Bool-cases (tag == codes "of_interest")) [
        | inl p ↦ rw p (IsConsistent-mark url db c)
        | inr n ↦ rw n (elim (Bool-cases (tag == codes "read")) [
          | inl p ↦ rw p (IsConsistent-insert_event read url timestamp filename db c)
          | inr m ↦ rw m (elim (Bool-cases (tag == codes "skimmed")) [
            | inl p ↦ rw p (IsConsistent-insert_event skimmed url timestamp filename db c)
            | inr k ↦ rw k c
          ])
        ])
      ]
