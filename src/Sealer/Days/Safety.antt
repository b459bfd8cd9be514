-- ===== src/Sealer/Days/Safety.antt =====
-- What a whole run over the completed days leaves in the database and in the directories.
use browser_visit_logger.Base.{
  List, [], ◌∷◌, true, false, none, Option, Text, Bool, if◌then◌else◌, inl, ◌≡◌, ℕ, All, refl, not,
  ap, inr, some,
}
use browser_visit_logger.Base.Dict.{NodupKeys}
use browser_visit_logger.Base.Distinct.{Distinct, keep-Distinct, sorted-Distinct, All-keep}
use browser_visit_logger.Base.Sorting.{All-sorted}
use browser_visit_logger.Base.Strings.{text_le}
use browser_visit_logger.Database.{Snapshot}
use browser_visit_logger.Files.{Files, is_dir}
use browser_visit_logger.Files.Listing.{All-list_dir, list_dir-Distinct}
use browser_visit_logger.Paths.Subdirs.{IsEntryName}
use browser_visit_logger.Sealer.Days.{
  candidates, seal_each, seal_candidates, cli, seal_or_list, dry_run,
}
use browser_visit_logger.Sealer.Days.Manifests.{
  row, Accounted, Untouched, Accounted-seal_each, quiet-Untouched,
}
use browser_visit_logger.Snapshots.Effects.{
  Env, World, ◌>>◌, ◌>>=◌, os_read, ok, err, Result, pure, ticked, close, continue, os_outcome,
}
use browser_visit_logger.Snapshots.Effects.Rules.{Stable, Stable-pure, Stable-bind}
use browser_visit_logger.Snapshots.Seal.{ensure_tables}
use browser_visit_logger.Snapshots.Seal.Closed.{Closed-committed}
use browser_visit_logger.Snapshots.Seal.Quiet.{quiet-Closed}

All-candidates : (root today : Text) (fs : Files) → All IsEntryName (candidates root today fs)
unfolding candidates
All-candidates root today fs =
    All-keep IsEntryName _ _ (All-sorted text_le IsEntryName _ (All-list_dir root fs))

candidates-Distinct :
    (root today : Text) (fs : Files) → NodupKeys fs → Distinct (candidates root today fs)
unfolding candidates
candidates-Distinct root today fs unique =
    keep-Distinct _ _ (sorted-Distinct text_le _ (list_dir-Distinct root fs unique))

-- The world in which the loop over the days starts.
abbrev pub begun : Env → World → World
begun env w = ((do ensure_tables env; ensure_tables env) w).1

module _ (env : Env) (day : Text) (before : Option Snapshot) where
  abbrev Start : World → Type 0
  Start = Untouched day before

  abbrev End : List Text → World → World → Type 0
  End names w = Accounted env day before names (begun env w)

  Start-ensure_tables : Stable Start (ensure_tables env)
  unfolding ensure_tables
  Start-ensure_tables =
      Closed-committed env (row day) none _
        (quiet-Closed env (row day) none Start (quiet-Untouched env day before)) (λ db. db)
        (λ db. refl)

  -- Closing keeps what was committed.
  End-close : (names : List Text) (w v : World) → End names w v → End names w (close env v)
  unfolding close
  End-close names w v = elim [ inl same ↦ inl (same.1, same.1) | inr stands ↦ inr stands ]

  End-seal_each :
      (names : List Text)
      → All IsEntryName names
      → Distinct names
      → (w : World) → Start w
      → End names w ((do ensure_tables env; ensure_tables env; seal_each env names) w).1
  End-seal_each names hs d w p = first (ensure_tables env w) (Start-ensure_tables.at w p)
    where
      second :
          (r : Result (Unit {0}) × World)
          → Start r.1
          → Accounted env day before names r.1 (continue (λ _. seal_each env names) r).1
      second (ok a, v) q = Accounted-seal_each env day before names hs d v q
      second (err x, v) q = inl q

      first :
          (r : Result (Unit {0}) × World)
          → Start r.1
          → Accounted env day before names
              (continue (λ _. ensure_tables env) r).1
              (continue (λ _. do ensure_tables env; seal_each env names) r).1
      first (ok a, v) q = second (ensure_tables env v) (Start-ensure_tables.at v q)
      first (err x, v) q = inl q

  End-seal_candidates :
      (names : List Text)
      → All IsEntryName names
      → Distinct names
      → (w : World) → Start w
      → End names w (seal_candidates env names w).1
  unfolding seal_candidates
  End-seal_candidates names hs d w p = End-close names w _ (End-seal_each names hs d w p)

  Start-dry_run : (names : List Text) (printed : Text) → Stable Start (dry_run env names printed)
  unfolding dry_run
  Start-dry_run [] printed = Stable-pure Start printed
  Start-dry_run (name ∷ names) printed =
      Stable-bind Start _ _ ((quiet-Untouched env day before).reads _) (λ n. Start-dry_run names _)

  End-seal_or_list :
      (dry : Bool) (names : List Text)
      → All IsEntryName names
      → Distinct names
      → (w : World) → Start w
      → End names w (seal_or_list env dry names w).1
  unfolding seal_or_list
  End-seal_or_list true names hs d w p =
      listed _ (dry_run env names [] w) ((Start-dry_run names []).at w p)
    where
      listed :
          (f : Text → ℕ × Text) (r : Result Text × World)
          → Start r.1
          → End names w (continue (λ a. pure (f a)) r).1
      listed f (ok a, v) q = inl q
      listed f (err x, v) q = inl q
  End-seal_or_list false names hs d w p =
      sealed _ (seal_candidates env names w) (End-seal_candidates names hs d w p)
    where
      sealed :
          (a : ℕ × Text) (r : Result (Unit {0}) × World)
          → End names w r.1
          → End names w (continue (λ _. pure a) r).1
      sealed a (ok b, v) q = q
      sealed a (err x, v) q = q

-- Whichever calls and statements fail in a run over the completed days, a day's row in `snapshots`
-- is the one of before when the connection is closed, or the day is one of those that are due and its
-- directory holds a read-only manifest: the header and then, by the files and the tables that the
-- sealing of the due days before it has left, a row for each file of the directory that has a
-- snapshot's name and an event, no row for anything else, and each row on one line of its own. The
-- connection starts with no open transaction, and no path stands twice in the file system.
pub cli-Accounted :
    (env : Env) (dry has_db : Bool) (day : Text) (w : World)
    → NodupKeys w.fs
    → w.saved ≡ w.db
    → Accounted env day
        (row day w.db.snapshots)
        (candidates env.icloud_snapshots_dir env.today_utc w.fs)
        (begun env (ticked w))
        (cli env dry has_db w).1
unfolding cli os_read
cli-Accounted env dry has_db day w unique clean =
    checks (is_dir env.icloud_snapshots_dir w.fs) has_db
  where
    root : Text
    root = env.icloud_snapshots_dir

    due : List Text
    due = candidates root env.today_utc w.fs

    before : Option Snapshot
    before = row day w.db.snapshots

    start : Untouched day before w
    start = (refl, ap (λ db. row day db.snapshots) clean)

    Done : World → Type 0
    Done = Accounted env day before due (begun env (ticked w))

    listed :
        (f : Option (ℕ × Text))
        → Done (continue (λ names. seal_or_list env dry names) (os_outcome env due w.fs w f)).1
    listed none =
        End-seal_or_list env day before dry due (All-candidates root env.today_utc w.fs)
          (candidates-Distinct root env.today_utc w.fs unique) (ticked w) start
    listed (some x) = inl start

    checks :
        (a b : Bool)
        → Done
            (if not a
              then (ok (1, []), w)
              else if not b
              then (ok (1, []), w)
              else (do
                names ← os_read env (candidates root env.today_utc)
                seal_or_list env dry names)
                  w).1
    checks false b = inl start
    checks true false = inl start
    checks true true = listed (env.os_fault w.tick)
