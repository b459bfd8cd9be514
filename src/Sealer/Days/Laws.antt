-- ===== src/Sealer/Days/Laws.antt =====
-- Which days are sealed, and that one failing day does not stop the others.
use browser_visit_logger.Base.{
  Text, List, [], ◌∷◌, false, text_eq, contains, ◌≡◌, ◌&&◌, ◌∙◌, some, ap, refl,
}
use browser_visit_logger.Sealer.Days.{candidates, seal_each, is_due}
use browser_visit_logger.Snapshots.Effects.{Env, World, ok, Result, continue, err}
use browser_visit_logger.Files.{Files, list_dir}
use browser_visit_logger.Base.Distinct.{contains-keep}
use browser_visit_logger.Base.Sorting.{sorted, contains-sorted}
use browser_visit_logger.Base.Strings.{text_le}
use browser_visit_logger.Snapshots.Seal.{seal_directory}
use browser_visit_logger.Paths.{path_join}
use browser_visit_logger.Snapshots.Seal.Safety.{seal_directory_never_raises}

-- A name is sealed by a run exactly where it stands in the archive and is the directory of a day
-- before today that has no manifest.
pub candidates_lem :
    (root today : Text) (fs : Files) (name : Text)
    → contains (candidates root today fs) name
      ≡ (contains (list_dir root fs) name && is_due fs root today name)
unfolding candidates
candidates_lem root today fs name =
    contains-keep (is_due fs root today) (sorted text_le (list_dir root fs)) name
    ∙ ap (λ b. b && is_due fs root today name) (contains-sorted text_le name (list_dir root fs))

-- Whichever calls and statements fail, the loop over the completed days comes to its end without an
-- exception.
pub seal_each_never_raises :
    (env : Env) (names : List Text) (w : World) → (seal_each env names w).0 ≡ ok tt
unfolding seal_each
seal_each_never_raises env [] w = refl
seal_each_never_raises env (name ∷ names) w =
    go (seal_directory env (path_join env.icloud_snapshots_dir name) false (some name) w)
      (seal_directory_never_raises env (path_join env.icloud_snapshots_dir name) false (some name)
        w)
      (seal_each_never_raises env names)
  where
    go :
        (r : Result (Unit {0}) × World)
        → r.0 ≡ ok tt
        → ((v : World) → (seal_each env names v).0 ≡ ok tt)
        → (continue (λ _. seal_each env names) r).0 ≡ ok tt
    go (ok a, v) e rest = rest v
    go (err x, v) e rest = e
