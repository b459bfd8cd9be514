-- ===== src/Sealer/Days/Manifests.antt =====
-- After a run over the completed days, a day that the database marks holds its manifest.
use browser_visit_logger.Base.{
  List, [], ◌∷◌, text_eq, false, none, some, Option, Text, arith, inl, inr, ◌⊎◌, ◌≡◌, contains,
  ◌==◌, All, sym, refl,
}
use browser_visit_logger.Base.{◌++◌, ap}
use browser_visit_logger.Snapshots.Effects.{Result, ok, err, continue}
use browser_visit_logger.Base.Distinct.{Distinct}
use browser_visit_logger.Base.Table.Upserts.{first-upsert_other}
use browser_visit_logger.Database.{Snapshot}
use browser_visit_logger.Paths.{path_join, is_abs}
use browser_visit_logger.Paths.Subdirs.{IsEntryName, path_join-apart}
use browser_visit_logger.Sealer.Days.{seal_each}
use browser_visit_logger.Snapshots.Effects.{
  Env, World, sql_read, sql_write, commit, os_read, os_write,
}
use browser_visit_logger.Snapshots.Effects.Rules.{Stable, Stable-pure, Stable-bind}
use browser_visit_logger.Snapshots.Manifest.{manifest_filename}
use browser_visit_logger.Snapshots.Seal.{seal_directory, mark_sealed}
use browser_visit_logger.Snapshots.Seal.Apart.{log_ne_manifest}
use browser_visit_logger.Snapshots.Seal.Order.{HasManifest, quiet-IsManifest, Safe-seal_directory}
use browser_visit_logger.Base.Table.{first}
use mathlib.Core.Path.{subst}
use browser_visit_logger.Snapshots.Seal.Closed.{unseen, Unseen, Closed-seal_directory}
use browser_visit_logger.Snapshots.Seal.Quiet.{Quiet, quiet-Closed}

-- The row of a day in `snapshots`.
abbrev pub row : Text → List Snapshot → Option Snapshot
row day rows = first (λ r. r.date == day) rows

-- The day's row is the one of before, also in what was committed.
abbrev pub Untouched : Text → Option Snapshot → World → Type 0
Untouched day before w = (row day w.db.snapshots ≡ before) × (row day w.saved.snapshots ≡ before)

-- Marking another day leaves the row alone.
Unseen-other : (day name : Text) → (name == day) ≡ false → Unseen (row day) (some name)
unfolding mark_sealed
Unseen-other day name other rows =
    first-upsert_other _ _ _ _ rows (λ r h. ground arith) (λ r h. ground arith) other

module _ (env : Env) (day : Text) where
  abbrev dir_of : Text → Text
  dir_of name = path_join env.icloud_snapshots_dir name

  -- The day is one of the days `names` that are sealed from the world `start` on, and a read-only
  -- manifest stands in its directory, with the rows of the directory's snapshots in the world that the
  -- days before it in the list leave.
  abbrev pub SealedIn : List Text → World → World → Type 0
  SealedIn names start w =
      (pre : List Text) × (post : List Text) × (names ≡ pre ++ day ∷ post)
      × HasManifest env (dir_of day) (seal_each env pre start).1 w

  -- The day's row is the one of before, or its manifest stands.
  abbrev pub Accounted : Option Snapshot → List Text → World → World → Type 0
  Accounted before names start w = Untouched day before w ⊎ SealedIn names start w

  module _ (before : Option Snapshot) where
    pub quiet-Untouched : Quiet env (row day) none (Untouched day before)
    unfolding os_read os_write sql_read sql_write commit
    quiet-Untouched = record {
      reads = λ g. record { at = λ w h. ground arith };
      writes = λ g s. record { at = λ w h. ground arith };
      queries = λ g. record { at = λ w h. ground arith };
      statements = λ g same. record { at = λ w h. ground (arith, same w.db) };
      commits = record { at = λ w h. ground arith };
    }

    -- Sealing another day keeps what holds of this one.
    Untouched-other :
        (name : Text)
        → (name == day) ≡ false
        → Stable (Untouched day before) (seal_directory env (dir_of name) false (some name))
    Untouched-other name other =
        Closed-seal_directory env (row day) none _
          (quiet-Closed env (row day) none _ quiet-Untouched) (λ a date. tt) (dir_of name)
          (some name) tt (Unseen-other day name other)

    HasManifest-other :
        (start : World) (name : Text)
        → IsEntryName day
        → IsEntryName name
        → (name == day) ≡ false
        → Stable
            (HasManifest env (dir_of day) start)
            (seal_directory env (dir_of name) false (some name))
    unfolding is_abs
    HasManifest-other start name hd hn other = record {
      at = λ w (rows, lists, h). (
        rows,
        lists,
        (Closed-seal_directory env unseen _ _
              (quiet-Closed env unseen _ _ (quiet-IsManifest env (dir_of day) rows))
              (λ a date. log_ne_manifest a (dir_of day) date) (dir_of name) (some name)
              (path_join-apart env.icloud_snapshots_dir name day manifest_filename hn hd refl other)
              (λ r. refl)).at
            w h,
      );
    }

    module _ (all : List Text) (start : World) where
      Accounted-other :
          (name : Text)
          → IsEntryName day
          → IsEntryName name
          → (name == day) ≡ false
          → Stable (Accounted before all start) (seal_directory env (dir_of name) false (some name))
      Accounted-other name hd hn other = record {
        at = λ w. elim [
          | inl same ↦ inl ((Untouched-other name other).at w same)
          | inr (pre, post, split, stands) ↦ inr (
            pre,
            post,
            split,
            (HasManifest-other (seal_each env pre start).1 name hd hn other).at w stands,
          )
        ];
      }

      -- Days after this one in the loop.
      Accounted-seal_others :
          (names : List Text)
          → IsEntryName day
          → All IsEntryName names
          → contains names day ≡ false
          → Stable (Accounted before all start) (seal_each env names)
      unfolding seal_each
      Accounted-seal_others [] hd hs fresh = Stable-pure _ tt
      Accounted-seal_others (name ∷ names) hd (h, hs) fresh =
          Stable-bind _ _ _ (Accounted-other name hd h (ground arith))
            (λ _. Accounted-seal_others names hd hs (ground arith))

    -- The day itself, and the days after it.
    Accounted-this :
        (names : List Text) (start : World)
        → IsEntryName day
        → All IsEntryName names
        → contains names day ≡ false
        → Untouched day before start
        → Accounted before (day ∷ names) start (seal_each env (day ∷ names) start).1
    unfolding seal_each
    Accounted-this names start hd hs fresh p =
        step (seal_directory env (dir_of day) false (some day) start) (
          found (seal_directory env (dir_of day) false (some day) start).1
            (Safe-seal_directory env (dir_of day) (row day) _ quiet-Untouched (some day) start p))
      where
        found :
            (w : World)
            → Untouched day before w ⊎ HasManifest env (dir_of day) start w
            → Accounted before (day ∷ names) start w
        found w (inl same) = inl same
        found w (inr stands) = inr ([], names, refl, stands)

        step :
            (r : Result (Unit {0}) × World)
            → Accounted before (day ∷ names) start r.1
            → Accounted before (day ∷ names) start (continue (λ _. seal_each env names) r).1
        step (ok a, v) h = (Accounted-seal_others (day ∷ names) start names hd hs fresh).at v h
        step (err x, v) h = h

    pub Accounted-seal_each :
        (names : List Text)
        → All IsEntryName names
        → Distinct names
        → (start : World) → Untouched day before start
        → Accounted before names start (seal_each env names start).1
    unfolding seal_each
    Accounted-seal_each [] hs d start p = inl p
    Accounted-seal_each (name ∷ names) (h, hs) (fresh, d) start p = elim (text_eq.dec name day) [
      | yes same ↦
          subst
            (λ n.
              IsEntryName n
              → contains names n ≡ false
              → Accounted before (n ∷ names) start (seal_each env (n ∷ names) start).1)
            (sym same) (λ k absent. Accounted-this names start k hs absent p) h fresh
      | no other ↦
          step (λ v q. Accounted-seal_each names hs d v q)
            (seal_directory env (dir_of name) false (some name) start)
            ((Untouched-other name (ground arith)).at start p) refl
    ]
      where
        step :
            ((v : World)
              → Untouched day before v
              → Accounted before names v (seal_each env names v).1)
            → (r : Result (Unit {0}) × World) → Untouched day before r.1
            → seal_directory env (dir_of name) false (some name) start ≡ r
            → Accounted before (name ∷ names) start (continue (λ _. seal_each env names) r).1
        step later (err x, v) q e = inl q
        step later (ok a, v) q e = elim (later v q) [
          | inl same ↦ inl same
          | inr (pre, post, split, stands) ↦ inr (
            name ∷ pre,
            post,
            ap (λ l. name ∷ l) split,
            subst (λ u. HasManifest env (dir_of day) u (seal_each env names v).1)
                (ap (λ (x : Result (Unit {0}) × World). (continue (λ _. seal_each env pre) x).1)
                  (sym e))
                stands,
          )
        ]
