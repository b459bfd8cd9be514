-- ===== src/ReadingList/Query/Laws.antt =====
-- The two lists hold the visits that are wanted, each once, latest first.
use browser_visit_logger.Base.{
  Text, Option, none, some, List, [], ◌∷◌, true, false, Bool, keep, not, map, ◌≡◌, ◌<◌, ◌⊎◌, inl,
  inr, arith, refl, sym, All, text_eq, nat_eq, ◌==◌, if◌then◌else◌, ◌&&◌, ◌∙◌, ap, All-map,
}
use mathlib.Core.List.{Perm}
use mathlib.Core.Bool.{false≢true}
use browser_visit_logger.ReadingList.Query.{
  fetch_rows, Row, later_first, row_of, is_wanted, is_skimmed, last_skim, later, is_set,
}
use browser_visit_logger.Database.{Db, Event, Visit}
use mathlib.Core.Path.{subst}
use browser_visit_logger.Base.Sorting.{sorted, IsSorted, sorted-perm, sorted-IsSorted}
use browser_visit_logger.Base.Strings.{text_lt}
use browser_visit_logger.Base.Strings.Laws.{text_lt_asymm, text_lt_irrefl}

-- An event of the url at that time.
abbrev pub HasSkim : Text → Text → List Event → Type 0
HasSkim url t [] = ⊥
HasSkim url t (e ∷ events) = ((e.url ≡ url) × (e.timestamp ≡ t)) ⊎ HasSkim url t events

-- The time of the last event of the url, or none where it has no event.
abbrev pub IsLatest : Text → List Event → Option Text → Type 0
IsLatest url events none = All (λ e. (e.url == url) ≡ false) events
IsLatest url events (some t) =
    HasSkim url t events × All (λ e. (e.url == url) ≡ true → text_lt t e.timestamp ≡ false) events

-- A row shows a visit, with the time of its last skimming.
pub record Shows (db : Db) (v : Visit) (r : Row) : Type 0 where
  pub same_url : r.url ≡ v.url
  pub same_title : r.title ≡ v.title
  pub same_time : r.first_visited ≡ v.timestamp
  pub latest : IsLatest v.url db.skimmed_events.rows r.last_skimmed

abbrev pub AllShown : Db → List Visit → List Row → Type 0
AllShown db [] [] = Unit
AllShown db (v ∷ vs) (r ∷ rows) = Shows db v r × AllShown db vs rows
AllShown db _ _ = ⊥

-- `chosen` is what remains of `visits` when only those with `P` are kept.
pub data Chosen (P : Visit → Type 0) : (visits chosen : List Visit) → Type 0 where
  nothing : Chosen P [] []
  taken :
      (v : Visit) (visits chosen : List Visit)
      → P v
      → Chosen P visits chosen
      → Chosen P (v ∷ visits) (v ∷ chosen)
  passed :
      (v : Visit) (visits chosen : List Visit)
      → ¬ P v
      → Chosen P visits chosen
      → Chosen P (v ∷ visits) chosen

abbrev pub LatestFirst : List Row → Type 0
LatestFirst [] = Unit
LatestFirst (a ∷ []) = Unit
LatestFirst (a ∷ b ∷ rows) =
    (text_lt a.first_visited b.first_visited ≡ false) × LatestFirst (b ∷ rows)

-- The rows show the visits with `P`, each once, latest first.
abbrev pub Shown : Db → (Visit → Type 0) → List Row → Type 0
Shown db P rows =
    (chosen : List Visit) × (shown : List Row) × Chosen P db.visits chosen
    × AllShown db chosen shown
    × Perm rows shown
    × LatestFirst rows

-- A visit of interest that has not been read.
abbrev pub IsOpen : Visit → Type 0
IsOpen v = ((t : Text) × (v.of_interest ≡ some t)) × (v.read ≡ 0)

later_eq : (a b c : Text) → text_lt a b ≡ false → text_lt b c ≡ false → text_lt a c ≡ false
unfolding text_lt
later_eq [] b [] h k = refl
later_eq [] [] (z ∷ c) h k = ground arith
later_eq [] (y ∷ b) (z ∷ c) h k = ground arith
later_eq (x ∷ a) b [] h k = refl
later_eq (x ∷ a) [] (z ∷ c) h k = ground arith
later_eq (x ∷ a) (y ∷ b) (z ∷ c) h k = ground (arith, later_eq a b c)

not_earlier : (a b c : Text) → text_lt a b ≡ true → text_lt a c ≡ false → text_lt b c ≡ false
not_earlier a b c h k = later_eq b a c (text_lt_asymm a b h) k

last_skim-IsLatest : (url : Text) (events : List Event) → IsLatest url events (last_skim url events)
unfolding last_skim
last_skim-IsLatest url [] = tt
last_skim-IsLatest url (e ∷ events) =
    one (e.url == url) refl (last_skim url events) (last_skim-IsLatest url events)
  where
    -- No event is later than one that is no earlier than the last.
    bounded :
        (t u : Text)
        → text_lt t u ≡ false
        → All (λ x. (x.url == url) ≡ true → text_lt u x.timestamp ≡ false) events
        → All (λ x. (x.url == url) ≡ true → text_lt t x.timestamp ≡ false) events
    bounded t u h a = All-map _ _ events (λ x k hit. later_eq t u x.timestamp h (k hit)) a

    -- Where the url has no event, nothing is claimed of one.
    vacant :
        (t : Text)
        → All (λ x. (x.url == url) ≡ false) events
        → All (λ x. (x.url == url) ≡ true → text_lt t x.timestamp ≡ false) events
    vacant t a = All-map _ _ events (λ x k hit. absurd (false≢true (sym k ∙ hit))) a

    newer :
        (u : Text) (b : Bool)
        → text_lt e.timestamp u ≡ b
        → (e.url == url) ≡ true
        → IsLatest url events (some u)
        → IsLatest url (e ∷ events) (some (if b then u else e.timestamp))
    newer u true lt hit (there, a) = (inr there, ((λ _. text_lt_asymm e.timestamp u lt), a))
    newer u false le hit (there, a) =
        (inl (ground arith, refl), ((λ _. text_lt_irrefl e.timestamp), bounded e.timestamp u le a))

    one :
        (b : Bool)
        → (e.url == url) ≡ b
        → (o : Option Text) → IsLatest url events o
        → IsLatest url (e ∷ events) (if b then some (later e.timestamp o) else o)
    one true hit none a =
        (inl (ground arith, refl), ((λ _. text_lt_irrefl e.timestamp), vacant e.timestamp a))
    one true hit (some u) h = newer u (text_lt e.timestamp u) refl hit h
    one false miss none a = (miss, a)
    one false miss (some u) (there, a) =
        (inr there, ((λ hit. absurd (false≢true (sym miss ∙ hit))), a))

module _ (db : Db) (P : Visit → Type 0) (p : Visit → Bool) (sound : (v : Visit) → p v ≡ true → P v)
    (complete : (v : Visit) → P v → p v ≡ true) where
  Chosen-keep : (visits : List Visit) → Chosen P visits (keep p visits)
  Chosen-keep [] = nothing
  Chosen-keep (v ∷ visits) = one (p v) refl (Chosen-keep visits)
    where
      one :
          (b : Bool)
          → p v ≡ b
          → Chosen P visits (keep p visits)
          → Chosen P (v ∷ visits) (elim b [ true ↦ v ∷ keep p visits | false ↦ keep p visits ])
      one true e c = taken v visits (keep p visits) (sound v e) c
      one false e c = passed v visits (keep p visits) (λ h. false≢true (sym e ∙ complete v h)) c

row_of-Shows : (db : Db) (visits : List Visit) → AllShown db visits (map (row_of db) visits)
row_of-Shows db [] = tt
row_of-Shows db (v ∷ visits) = (
  record {
    same_url = refl;
    same_title = refl;
    same_time = refl;
    latest = last_skim-IsLatest v.url db.skimmed_events.rows;
  },
  row_of-Shows db visits,
)

latest_total : (a b : Row) → later_first a b ≡ false → later_first b a ≡ true
latest_total a b h = ground (arith, text_lt_asymm a.first_visited b.first_visited)

sorted-LatestFirst : (rows : List Row) → IsSorted later_first rows → LatestFirst rows
sorted-LatestFirst [] h = tt
sorted-LatestFirst (a ∷ []) h = tt
sorted-LatestFirst (a ∷ b ∷ rows) (here, h) = (ground arith, sorted-LatestFirst (b ∷ rows) h)

keep_both :
    (p q : Visit → Bool) (visits : List Visit)
    → keep p (keep q visits) ≡ keep (λ v. q v && p v) visits
keep_both p q [] = refl
keep_both p q (v ∷ visits) = ground (arith, keep_both p q visits)

module _ (db : Db) (P : Visit → Type 0) (p : Visit → Bool)
    (sound : (v : Visit) → (is_wanted v && p v) ≡ true → P v)
    (complete : (v : Visit) → P v → (is_wanted v && p v) ≡ true) where
  Shown-sorted :
      Shown db P (sorted later_first (map (row_of db) (keep p (keep is_wanted db.visits))))
  Shown-sorted =
      let rows = map (row_of db) (keep p (keep is_wanted db.visits)) in
      (
        keep p (keep is_wanted db.visits),
        rows,
        subst (Chosen P db.visits) (sym (keep_both p is_wanted db.visits))
            (Chosen-keep db P (λ v. is_wanted v && p v) sound complete db.visits),
        row_of-Shows db (keep p (keep is_wanted db.visits)),
        sorted-perm later_first rows,
        sorted-LatestFirst _ (sorted-IsSorted later_first latest_total rows),
      )

set_lem : (o : Option Text) → is_set o ≡ true → (t : Text) × (o ≡ some t)
set_lem none h = absurd (false≢true h)
set_lem (some t) h = (t, refl)

open_lem : (v : Visit) → is_wanted v ≡ true → IsOpen v
unfolding is_wanted
open_lem v h = (set_lem v.of_interest (ground arith), ground arith)

wanted_lem : (v : Visit) → IsOpen v → is_wanted v ≡ true
unfolding is_wanted
wanted_lem v ((t, set), unread) = ground (arith, ap is_set set)

-- The reading list has two lists of rows, each latest first by the time of the visit: the first shows
-- exactly the visits of interest that have not been read but skimmed, the second exactly those that
-- have been neither, each once, with the url, the title and the time of the visit and the time of the
-- last skimming event of the url, if it has one.
pub fetch_rows-Shown :
    (db : Db)
    → Shown db (λ v. IsOpen v × (0 < v.skimmed)) (fetch_rows db).0
      × Shown db (λ v. IsOpen v × (v.skimmed ≡ 0)) (fetch_rows db).1
unfolding fetch_rows
fetch_rows-Shown db = (
  Shown-sorted db _ is_skimmed (λ v h. (open_lem v (ground arith), ground arith))
      (λ v (o, s). ground (arith, wanted_lem v o)),
  Shown-sorted db _ (λ v. not (is_skimmed v)) (λ v h. (open_lem v (ground arith), ground arith))
      (λ v (o, s). ground (arith, wanted_lem v o)),
)
