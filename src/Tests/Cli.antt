-- ===== src/Tests/Cli.antt =====
-- A run of the rebuilder's command line.
use browser_visit_logger.Base.{true, false, none, some, ◌≡◌, Option, refl}
use browser_visit_logger.Database.{Db, DbFile}
use browser_visit_logger.Rebuilder.Run.{
  Defaults, Args, cli, rebuild, RebuildStats, chosen_paths, opened,
}
use browser_visit_logger.Base.Strings.{codes}
use browser_visit_logger.Files.{is_dir}
use browser_visit_logger.Tests.{example_files}
use browser_visit_logger.Paths.{dirname}

abbrev example_args : Args
example_args = record {
  truncate = true;
  log_only = false;
  rehydrate_only = true;
  log_dir = none;
  db_path = some (codes "/l/db");
  source = none;
  dest = none;
}

abbrev example_defaults : Defaults
example_defaults = record {
  log_dir = codes "/l";
  db_file = codes "/db";
  downloads_dir = codes "downloads";
  icloud_dir = codes "/a";
}

abbrev no_crash : Option (Option DbFile)
no_crash = none

exit_code_test : (cli example_files example_defaults no_crash example_args none).code ≡ 0
unfolding cli rebuild is_dir dirname
exit_code_test = refl

abbrev example_result : Db × RebuildStats
example_result =
    rebuild example_files (chosen_paths example_defaults example_args) false true true (opened none)
