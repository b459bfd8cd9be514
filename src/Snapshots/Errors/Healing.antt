-- ===== src/Snapshots/Errors/Healing.antt =====
-- What the reconciliation of a directory removes from `mover_errors`.
use browser_visit_logger.Base.{
  Text, List, [], ◌∷◌, text_eq, ◌==◌, ◌≡◌, Option, none, some, arith, ◌∙◌, refl, ap, Bool, true,
  false, not, contains, keep, All, sym, ◌⊎◌, inl, inr, ◌&&◌,
}
use browser_visit_logger.Base.Table.{delete}
use browser_visit_logger.Base.Strings.{after_prefix, starts_with, found}
use browser_visit_logger.Base.Strings.Laws.{after_prefix-append}
use browser_visit_logger.Base.{◌++◌, nat_eq}
use mathlib.Core.Bool.{false≢true}
use browser_visit_logger.Paths.{path_join}
use browser_visit_logger.Database.{MoverError, Db}
use browser_visit_logger.Snapshots.Effects.{
  Env, World, Result, ok, err, os_error, sql_error, value_error, SqlError, sql_read, sql_write,
  commit, sql_outcome, handle_sql, ticked, pure, ◌>>◌, continue,
}
use browser_visit_logger.Snapshots.Errors.{
  delete_error, is_healed, delete_keys, keys_of, reconcile_dir_scoped_errors,
}

-- `key` is the primary key.
abbrev pub UniqueKeys : List MoverError → Type 0
UniqueKeys [] = Unit
UniqueKeys (r ∷ rows) = (contains (keys_of rows) r.key ≡ false) × UniqueKeys rows

delete_all : List Text → List MoverError → List MoverError
delete_all [] rows = rows
delete_all (key ∷ keys) rows = delete_all keys (delete_error key rows)

module _ {ℓ} {A : Type ℓ} where
  keep-agree : (p q : A → Bool) (xs : List A) → All (λ x. p x ≡ q x) xs → keep p xs ≡ keep q xs
  keep-agree p q [] h = refl
  keep-agree p q (x ∷ xs) (here, h) = ground (arith, here, keep-agree p q xs h)

  keep-cong : (p q : A → Bool) (xs : List A) → ((x : A) → p x ≡ q x) → keep p xs ≡ keep q xs
  keep-cong p q [] h = refl
  keep-cong p q (x ∷ xs) h = ground (arith, h x, keep-cong p q xs h)

  keep_twice : (p q : A → Bool) (xs : List A) → keep p (keep q xs) ≡ keep (λ x. q x && p x) xs
  keep_twice p q [] = refl
  keep_twice p q (x ∷ xs) = ground (arith, keep_twice p q xs)

  keep_all : (xs : List A) → keep (λ x. true) xs ≡ xs
  keep_all [] = refl
  keep_all (x ∷ xs) = ap (λ ys. x ∷ ys) (keep_all xs)

delete_error-keep :
    (key : Text) (rows : List MoverError)
    → delete_error key rows ≡ keep (λ r. not (r.key == key)) rows
unfolding delete_error delete
delete_error-keep key [] = refl
delete_error-keep key (r ∷ rows) = ground (arith, delete_error-keep key rows)

delete_all-keep :
    (keys : List Text) (rows : List MoverError)
    → delete_all keys rows ≡ keep (λ r. not (contains keys r.key)) rows
unfolding delete_all
delete_all-keep [] rows = sym (keep_all rows)
delete_all-keep (key ∷ keys) rows =
    delete_all-keep keys (delete_error key rows)
    ∙ ap (keep (λ r. not (contains keys r.key))) (delete_error-keep key rows)
    ∙ keep_twice (λ r. not (contains keys r.key)) (λ r. not (r.key == key)) rows
    ∙ keep-cong _ _ rows (λ r. ground arith)

-- A row's key is among those of the chosen rows exactly where the row is chosen.
absent_key :
    (p : MoverError → Bool) (rows : List MoverError) (key : Text)
    → contains (keys_of rows) key ≡ false
    → contains (keys_of (keep p rows)) key ≡ false
absent_key p [] key h = refl
absent_key p (r ∷ rows) key h = ground (arith, absent_key p rows key)

others_apart :
    (rows : List MoverError) (key : Text)
    → contains (keys_of rows) key ≡ false
    → All (λ r. (r.key == key) ≡ false) rows
others_apart [] key h = tt
others_apart (r ∷ rows) key h = (ground arith, others_apart rows key (ground arith))

widened :
    (p : MoverError → Bool) (key : Text) (keys : List Text) (rows : List MoverError)
    → All (λ r. (r.key == key) ≡ false) rows
    → All (λ r. contains keys r.key ≡ p r) rows
    → All (λ r. contains (key ∷ keys) r.key ≡ p r) rows
widened p key keys [] a h = tt
widened p key keys (r ∷ rows) (apart, a) (here, h) = (ground arith, widened p key keys rows a h)

chosen_keys :
    (p : MoverError → Bool) (rows : List MoverError)
    → UniqueKeys rows
    → All (λ r. contains (keys_of (keep p rows)) r.key ≡ p r) rows
chosen_keys p [] u = tt
chosen_keys p (r ∷ rows) (fresh, u) = one (p r) refl (chosen_keys p rows u)
  where
    one :
        (b : Bool)
        → p r ≡ b
        → All (λ s. contains (keys_of (keep p rows)) s.key ≡ p s) rows
        → All
            (λ s.
              contains (keys_of (elim b [ true ↦ r ∷ keep p rows | false ↦ keep p rows ])) s.key
              ≡ p s)
            (r ∷ rows)
    one true e ih = (
      ground arith,
      widened p r.key (keys_of (keep p rows)) rows (others_apart rows r.key fresh) ih,
    )
    one false e ih = (absent_key p rows r.key fresh ∙ sym e, ih)

All-not :
    (p q : MoverError → Bool) (rows : List MoverError)
    → All (λ r. p r ≡ q r) rows
    → All (λ r. not (p r) ≡ not (q r)) rows
All-not p q [] h = tt
All-not p q (r ∷ rows) (here, h) = (ap not here, All-not p q rows h)

-- Deleting the keys of the chosen rows deletes the chosen rows and no other.
delete_all-chosen :
    (p : MoverError → Bool) (rows : List MoverError)
    → UniqueKeys rows
    → delete_all (keys_of (keep p rows)) rows ≡ keep (λ r. not (p r)) rows
delete_all-chosen p rows u =
    delete_all-keep (keys_of (keep p rows)) rows
    ∙ keep-agree _ _ rows (All-not _ p rows (chosen_keys p rows u))

-- A row of the operation whose target lies under the directory and is no current stray.
pub record IsResolved (op dir_path : Text) (strays : List Text) (r : MoverError) : Type 0 where
  pub same_operation : r.operation ≡ op
  pub under : (rest : Text) × (r.target ≡ path_join dir_path [] ++ rest)
  pub gone : contains strays r.target ≡ false

-- `left` is what remains of `rows` without those for which `P` holds.
pub data Without (P : MoverError → Type 0) : (rows left : List MoverError) → Type 0 where
  nothing : Without P [] []
  dropped :
      (r : MoverError) (rows left : List MoverError)
      → P r
      → Without P rows left
      → Without P (r ∷ rows) left
  kept :
      (r : MoverError) (rows left : List MoverError)
      → ¬ P r
      → Without P rows left
      → Without P (r ∷ rows) (r ∷ left)

after_prefix-own : (old rest : Text) → after_prefix old (old ++ rest) ≡ some rest
unfolding after_prefix nat_eq
after_prefix-own [] rest = refl
after_prefix-own (c ∷ old) rest = ground (arith, after_prefix-own old rest)

starts_with-split : (s old : Text) → starts_with s old ≡ true → (rest : Text) × (s ≡ old ++ rest)
starts_with-split s old h = one (after_prefix old s) refl h
  where
    one :
        (o : Option Text)
        → after_prefix old s ≡ o
        → found o ≡ true
        → (rest : Text) × (s ≡ old ++ rest)
    one none e h = absurd (ground arith)
    one (some rest) e h = (rest, after_prefix-append old s rest e)

module _ (op dir_path : Text) (strays : List Text) where
  is_healed-IsResolved :
      (r : MoverError) → is_healed op dir_path strays r ≡ true → IsResolved op dir_path strays r
  unfolding is_healed
  is_healed-IsResolved r h = record {
    same_operation = ground arith;
    under = starts_with-split r.target (path_join dir_path []) (ground arith);
    gone = ground arith;
  }

  IsResolved-is_healed :
      (r : MoverError) → IsResolved op dir_path strays r → is_healed op dir_path strays r ≡ true
  unfolding is_healed
  IsResolved-is_healed r h =
      let starts : starts_with r.target (path_join dir_path []) ≡ true =
        ap (λ t. starts_with t (path_join dir_path [])) h.under.1
        ∙ ap found (after_prefix-own (path_join dir_path []) h.under.0) in
      ground (arith, h.same_operation, h.gone, starts)

  Without-keep :
      (rows : List MoverError)
      → Without
          (IsResolved op dir_path strays)
          rows
          (keep (λ r. not (is_healed op dir_path strays r)) rows)
  Without-keep [] = nothing
  Without-keep (r ∷ rows) = one (is_healed op dir_path strays r) refl (Without-keep rows)
    where
      one :
          (b : Bool)
          → is_healed op dir_path strays r ≡ b
          → Without
              (IsResolved op dir_path strays)
              rows
              (keep (λ r. not (is_healed op dir_path strays r)) rows)
          → Without (IsResolved op dir_path strays) (r ∷ rows) (elim (not b) [
            | true ↦ r ∷ keep (λ r. not (is_healed op dir_path strays r)) rows
            | false ↦ keep (λ r. not (is_healed op dir_path strays r)) rows
          ])
      one true e ih = dropped r rows _ (is_healed-IsResolved r e) ih
      one false e ih = kept r rows _ (λ h. false≢true (sym e ∙ IsResolved-is_healed r h)) ih

module _ (env : Env) where
  abbrev with_errors : Db → List MoverError → Db
  with_errors db rows = record db { mover_errors = rows }

  -- All keys are deleted, or a statement has failed; nothing is committed.
  abbrev Deleted : List Text → World → Result (Unit {0}) × World → Type 0
  Deleted keys w (ok a, v) =
      (v.db ≡ with_errors w.db (delete_all keys w.db.mover_errors)) × (v.saved ≡ w.saved)
  Deleted keys w (err (sql_error e), v) = v.saved ≡ w.saved
  Deleted keys w (err (os_error errno text), v) = ⊥
  Deleted keys w (err (value_error text), v) = ⊥

  Deleted-delete_keys : (keys : List Text) (w : World) → Deleted keys w (delete_keys env keys w)
  unfolding delete_keys delete_all sql_write
  Deleted-delete_keys [] w = (refl, refl)
  Deleted-delete_keys (key ∷ keys) w = step (env.db_fault w.tick) (λ v. Deleted-delete_keys keys v)
    where
      step :
          (f : Option SqlError)
          → ((v : World) → Deleted keys v (delete_keys env keys v))
          → Deleted (key ∷ keys) w (
              continue
                (λ _. delete_keys env keys)
                (sql_outcome {0} env tt
                  (with_errors w.db (delete_error key w.db.mover_errors))
                  w
                  f))
      step none rest = rest _
      step (some e) rest = refl

  module _ (op dir_path : Text) (strays : List Text) (w : World) where
    -- The database with the resolved rows removed from `mover_errors`, and no other.
    abbrev pub IsHealed : Db → Type 0
    IsHealed db =
        (left : List MoverError) × (db ≡ record w.db { mover_errors = left })
        × Without (IsResolved op dir_path strays) w.db.mover_errors left

    abbrev pub Healed : Result (Unit {0}) × World → Type 0
    Healed r = (r.0 ≡ ok tt) × ((r.1.saved ≡ w.saved) ⊎ IsHealed r.1.saved)

    abbrev keys : List Text
    keys = keys_of (keep (is_healed op dir_path strays) w.db.mover_errors)

    Healed-commit :
        UniqueKeys w.db.mover_errors
        → (r : Result (Unit {0}) × World) → Deleted keys w r
        → Healed (handle_sql (λ _. pure tt) (continue (λ _. commit env) r))
    unfolding commit
    Healed-commit u (ok a, v) (e, same) = step (env.db_fault v.tick)
      where
        step :
            (f : Option SqlError)
            → Healed (
                handle_sql
                  (λ _. pure tt)
                  (elim f [
                    | none ↦ (ok tt, record (ticked v) { saved = v.db })
                    | some x ↦ (err (sql_error x), ticked v)
                  ]))
        step none = (
          refl,
          inr (
            keep (λ r. not (is_healed op dir_path strays r)) w.db.mover_errors,
            e
                ∙ ap (with_errors w.db)
                    (delete_all-chosen (is_healed op dir_path strays) w.db.mover_errors u),
            Without-keep op dir_path strays w.db.mover_errors,
          ),
        )
        step (some x) = (refl, inl same)
    Healed-commit u (err (sql_error e), v) same = (refl, inl same)
    Healed-commit u (err (os_error errno text), v) h = absurd h
    Healed-commit u (err (value_error text), v) h = absurd h

    -- Where no key stands twice in `mover_errors`, whichever statements fail, reconciling a directory
    -- returns without an exception, and what is committed is as before, or the database with exactly
    -- those rows removed from `mover_errors` that are of the operation, whose target is
    -- `os.path.join(dir_path, '')` with some rest behind it, and whose target is no current stray.
    pub reconcile_heals :
        UniqueKeys w.db.mover_errors → Healed (reconcile_dir_scoped_errors env op dir_path strays w)
    unfolding reconcile_dir_scoped_errors sql_read
    reconcile_heals u = step (env.db_fault w.tick)
      where
        step :
            (f : Option SqlError)
            → Healed (
                handle_sql
                  (λ _. pure tt)
                  (continue
                    (λ prior. do
                      delete_keys env (keys_of (keep (is_healed op dir_path strays) prior))
                      commit env)
                    (sql_outcome env w.db.mover_errors w.db w f)))
        step none =
            Healed-commit u (delete_keys env keys (ticked w)) (Deleted-delete_keys keys (ticked w))
        step (some e) = (refl, inl refl)
