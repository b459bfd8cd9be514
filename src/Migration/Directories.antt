-- ===== src/Migration/Directories.antt =====
-- The directories that the events of a migrated archive name.
use browser_visit_logger.Base.Strings.Laws.{after_prefix-append}
use browser_visit_logger.Base.{
  ℕ, suc, ◌-◌, Text, Bool, true, false, ◌||◌, Option, none, some, List, [], ◌∷◌, ◌++◌, ◌≡◌, refl,
  ap, ◌∙◌, arith, ◌==◌, nat_eq, if◌then◌else◌, All, Bool-cases, inl, inr, length, map,
}
use browser_visit_logger.Base.Strings.{after_prefix, has_part, found}
use browser_visit_logger.Base.Table.{update}
use browser_visit_logger.Database.{Db, Event}
use browser_visit_logger.Paths.{sep}
use browser_visit_logger.Migration.{
  like, folded, replaced_from, replace_all, with_slash, is_in, redirect, redirected,
  rewrite_db_directories,
}

-- The root occurs nowhere in the directory, or it starts the directory and does not occur behind that.
abbrev OnceBehind : Text → Text → Option Text → Type 0
OnceBehind old d none = has_part old d ≡ false
OnceBehind old d (some rest) = has_part old rest ≡ false

abbrev pub Once : Text → Event → Type 0
Once old e = OnceBehind old e.directory (after_prefix old e.directory)

-- The event with its directory below the new root, if it was below the old one.
abbrev moved_behind : Text → Event → Option Text → Event
moved_behind new e none = e
moved_behind new e (some rest) = record e { directory = new ++ rest }

abbrev pub moved : Text → Text → Event → Event
moved old new e = moved_behind new e (after_prefix old e.directory)

prefix_lem : (old rest : Text) → after_prefix old (old ++ rest) ≡ some rest
unfolding after_prefix
prefix_lem [] rest = refl
prefix_lem (p ∷ old) rest = ground (arith, prefix_lem old rest)

like_all : (s : Text) → like (b'%' ∷ []) s ≡ true
unfolding like nat_eq
like_all [] = refl
like_all (c ∷ s) = like_all s

or_right : (b : Bool) → (b || true) ≡ true
or_right true = refl
or_right false = refl

same_lem : (n : ℕ) → (n == n) ≡ true
unfolding nat_eq
same_lem n = ground arith

like_more :
    (p : ℕ) (pattern s : Text)
    → (p == b'%') ≡ true
    → like pattern s ≡ true
    → like (p ∷ pattern) s ≡ true
unfolding like
like_more p pattern [] percent h = rw (percent, like) h
like_more p pattern (c ∷ s) percent h = rw (percent, like, h) refl

like_own : (old rest : Text) → like (old ++ b'%' ∷ []) (old ++ rest) ≡ true
unfolding like
like_own [] rest = like_all rest
like_own (p ∷ old) rest = elim (Bool-cases (p == b'%')) [
  | inl percent ↦
      rw (percent, like, like_more p (old ++ b'%' ∷ []) (old ++ rest) percent (like_own old rest))
        (or_right _)
  | inr other ↦ rw (other, like, same_lem (folded p), or_right (p == b'_')) (like_own old rest)
]

module _ (old new : Text) where
  replaced_none : (s : Text) → has_part old s ≡ false → replaced_from 0 old new s ≡ s
  unfolding replaced_from has_part
  replaced_none [] h = refl
  replaced_none (c ∷ s) h = ground (arith, replaced_none s)

  replaced_skip :
      (t s : Text) → replaced_from (length t) old new (t ++ s) ≡ replaced_from 0 old new s
  unfolding replaced_from
  replaced_skip [] s = refl
  replaced_skip (c ∷ t) s = replaced_skip t s

pred_lem : (n : ℕ) → suc n - 1 ≡ n
pred_lem n = omega arith

abbrev IsCons : Text → Type 0
IsCons [] = ⊥
IsCons (c ∷ s) = Unit

IsCons-append : (s : Text) → IsCons (s ++ sep ∷ [])
IsCons-append [] = tt
IsCons-append (c ∷ s) = tt

replace_all-prefix :
    (old new rest : Text)
    → IsCons old
    → has_part old rest ≡ false
    → replace_all old new (old ++ rest) ≡ new ++ rest
unfolding replaced_from
replace_all-prefix [] new rest cons h = absurd cons
replace_all-prefix (c ∷ t) new rest cons h =
    rw (ap found (prefix_lem (c ∷ t) rest), pred_lem (length t))
      (ap (λ s. new ++ s) (replaced_skip (c ∷ t) new t rest ∙ replaced_none (c ∷ t) new rest h))

module _ (old new : Text) (cons : IsCons old) where
  redirect-Once :
      (e : Event) (o : Option Text)
      → after_prefix old e.directory ≡ o
      → OnceBehind old e.directory o
      → (if is_in old e then redirect old new e else e) ≡ moved_behind new e o
  redirect-Once e none h once = kept (is_in old e)
    where
      kept : (b : Bool) → (if b then redirect old new e else e) ≡ e
      kept true = ap (λ d. record e { directory = d }) (replaced_none old new e.directory once)
      kept false = refl
  redirect-Once e (some rest) h once =
      let start = after_prefix-append old e.directory rest h in
      let inside = ap (like (old ++ b'%' ∷ [])) start ∙ like_own old rest in
      rw inside (
        ap (λ d. record e { directory = d })
          (ap (replace_all old new) start ∙ replace_all-prefix old new rest cons once))

  redirected-moved :
      (rows : List Event)
      → All (Once old) rows
      → redirected false old new rows ≡ map (moved old new) rows
  unfolding redirected update
  redirected-moved [] once = refl
  redirected-moved (e ∷ rows) (first, once) =
      rw (redirect-Once e (after_prefix old e.directory) refl first)
        (ap (λ r. moved old new e ∷ r) (redirected-moved rows once))

-- The database whose events below the old root are below the new one.
abbrev pub relocated : Text → Text → Db → Db
relocated old new db = record db {
  read_events = record db.read_events { rows = map (moved old new) db.read_events.rows };
  skimmed_events = record db.skimmed_events { rows = map (moved old new) db.skimmed_events.rows };
}

-- Where the old root, with its slash, occurs in a directory at its start only, the rewriting puts the
-- events below it below the new root, with the rest of the directory as it was, and changes nothing
-- else, whatever LIKE takes for a match; a dry run changes nothing and counts the same rows.
pub rewrite_db_directories-relocated :
    (old_root new_root : Text) (db : Db)
    → All (Once (with_slash old_root)) db.read_events.rows
    → All (Once (with_slash old_root)) db.skimmed_events.rows
    → ((rewrite_db_directories old_root new_root false db).0
        ≡ relocated (with_slash old_root) (with_slash new_root) db)
      × ((rewrite_db_directories old_root new_root true db).0 ≡ db)
      × ((rewrite_db_directories old_root new_root true db).1
          ≡ (rewrite_db_directories old_root new_root false db).1)
unfolding rewrite_db_directories redirected
rewrite_db_directories-relocated old_root new_root db once_read once_skimmed =
    let old = with_slash old_root in
    let new = with_slash new_root in
    (
      ap
            (λ r. record db {
              read_events = record db.read_events { rows = r };
              skimmed_events = record db.skimmed_events {
                rows = redirected false old new db.skimmed_events.rows;
              };
            })
            (redirected-moved old new (IsCons-append _) db.read_events.rows once_read)
          ∙ ap
              (λ r. record db {
                read_events = record db.read_events {
                  rows = map (moved old new) db.read_events.rows;
                };
                skimmed_events = record db.skimmed_events { rows = r };
              })
              (redirected-moved old new (IsCons-append _) db.skimmed_events.rows once_skimmed),
      refl,
      refl,
    )
