-- ===== src/Tests/Sealer.antt =====
-- Runs of the sealer's command line at small inputs.
use browser_visit_logger.Base.{[], ◌∷◌, text_eq, ◌≡◌, refl}
use browser_visit_logger.Sealer.Days.{candidates, is_due}
use browser_visit_logger.Base.Strings.{codes, text_lt}
use browser_visit_logger.Tests.{day, example_files}
use browser_visit_logger.Files.{list_dir, is_dir, path_exists}
use browser_visit_logger.Base.{true, false, nat_eq}
use browser_visit_logger.Base.Dict.{get}
use browser_visit_logger.Sealer.Days
use browser_visit_logger.Sealer.Days.Manifests.{Accounted, row}
use browser_visit_logger.Sealer.Days.Safety.{begun, cli-Accounted}
use browser_visit_logger.Snapshots.Effects.{ticked}
use browser_visit_logger.Tests.Snapshots.{failing_env, example_world}
use browser_visit_logger.Paths.{path_join}
use browser_visit_logger.Names.{is_date_dir}
use browser_visit_logger.Base.Sorting.{sorted}

due_test : candidates (codes "/a") (codes "2024-01-03") example_files ≡ day ∷ []
unfolding candidates is_due list_dir is_dir path_exists path_join is_date_dir sorted text_lt
due_test = refl

not_due_test : candidates (codes "/a") (codes "2024-01-02") example_files ≡ []
unfolding candidates is_due list_dir is_dir path_exists path_join is_date_dir sorted text_lt
not_due_test = refl

cli-Accounted_example :
    Accounted failing_env day
      (row day example_world.db.snapshots)
      (candidates (codes "/a") (codes "2024-01-03") example_files)
      (begun failing_env (ticked example_world))
      (Days.cli failing_env false true example_world).1
unfolding get text_eq nat_eq
cli-Accounted_example =
    cli-Accounted failing_env false true day example_world
      (refl, (refl, (refl, (refl, (refl, tt))))) refl
