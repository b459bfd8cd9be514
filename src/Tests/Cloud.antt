-- ===== src/Tests/Cloud.antt =====
-- Runs of the cloud tools with answers of AWS that are written out.
use browser_visit_logger.Base.{
  ℕ, Text, true, false, none, some, List, [], ◌∷◌, ◌+◌, ◌≤◌, ◌≡◌, refl, arith, text_eq, nat_eq,
  Bool, leb, contains,
}
use browser_visit_logger.Base.Strings.{codes}
use browser_visit_logger.Cloud.Calls.{
  Aws, Site, Invocation, Call, slept, answered, ask, try_else, load_state, raised, timeout_error,
  Reply, refused, done, get_command_invocation,
}
use browser_visit_logger.Cloud.Aws.{
  wait_for_ssm_online, run_remote, look_online, look_ended, poll, sleep, discover_instances,
  choose_instance, resolve_instance_id, terminal,
}
use browser_visit_logger.Cloud.Aws.{tags, managed}
use browser_visit_logger.Cloud.Calls.{Instance, describe_instances}
use browser_visit_logger.Cloud.Aws.Resolved.{passes_all}
use browser_visit_logger.Cloud.Aws.Reached.{Settled, run_remote_returns}
use browser_visit_logger.Cloud.Aws.Polling.{Ticks, Ended, pauses, waiting_ends}
use browser_visit_logger.Cloud.Vm.{Creation, arm64, cmd_create}
use browser_visit_logger.Cloud.Vm.Launches.{Created, cmd_create_lem}
use browser_visit_logger.Cloud.Vm.Targets.{Targets}
use browser_visit_logger.Cloud.Quote.{words, unquoted}
use browser_visit_logger.Cloud.Server.{
  server_main, server_dispatch, systemctl, remote_only, run_and_surface, surface, ssm_target,
  provision,
}
use browser_visit_logger.Cloud.Server.Scripts.{program_line, argv_of, enroll_program, enroll}
use browser_visit_logger.Cloud.Server.Quoted.{program_line_reads_back}
use browser_visit_logger.Cloud.Server.Scope.{server_main-all_allowed}
use browser_visit_logger.Cloud.Server.Scope.Steps.{all_allowed}
use browser_visit_logger.Cloud.Server.Success.{server_main-Succeeded}
use browser_visit_logger.Cloud.Server.Success.Steps.{Succeeded}

abbrev seconds : Call → ℕ
seconds (slept n) = n
seconds _ = 0

-- A clock that only sleeping moves.
abbrev slept_seconds : List Call → ℕ
slept_seconds [] = 0
slept_seconds (c ∷ calls) = seconds c + slept_seconds calls

abbrev success : Invocation
success = record { status = codes "Success"; exit_code = some 0; stdout = []; stderr = [] }

abbrev one_instance : Instance
one_instance = record { instance_id = codes "i-1"; state_name = codes "running"; tags = tags }

-- One live instance whose agent reports with that status.
abbrev aws_with : List Text → Aws
aws_with statuses = record {
  instances = λ calls. answered (one_instance ∷ []);
  security_groups = λ calls. answered [];
  new_group = λ calls. answered (codes "sg-1");
  parameter = λ calls. answered (codes "ami-1");
  account = λ calls. answered (codes "42");
  launched = λ calls. answered (codes "i-2");
  ping_statuses = λ calls. answered statuses;
  command_id = λ calls. answered (codes "c-1");
  invocation = λ calls. answered success;
  perform = λ calls. answered tt;
  clock = slept_seconds;
  region_variable = none;
  token = λ calls. codes "t";
  read_bytes = λ path. some (codes "binary");
  is_file = λ path. true;
  sha256 = λ bytes. codes "digest";
  cert_fingerprint = λ path. some (codes "fp");
  deploy_dir = codes "/deploy";
  sealer_dir = codes "/sealer";
  library_dir = codes "/library";
  repr = λ text. text;
}

abbrev online : Aws
online = aws_with (codes "Online" ∷ [])

abbrev offline : Aws
offline = aws_with []

abbrev example_site : Site
example_site = record {
  calls = [];
  state = record {
    region = some (codes "us-west-2");
    instance_id = some (codes "i-1");
    arch = some (codes "arm64");
    security_group_id = none;
    iam_instance_profile = none;
  };
}

offline-Ticks : Ticks offline
offline-Ticks = record { later = λ c h. omega arith; sleeps = λ n h. omega arith }

-- An agent that never comes online is waited for until the deadline.
offline_test : (wait_for_ssm_online offline (codes "i-1") example_site).0 ≡ raised timeout_error
unfolding wait_for_ssm_online look_online poll sleep ask text_eq
offline_test = refl

waiting_ends_example :
    Ended offline 180 (wait_for_ssm_online offline (codes "i-1") example_site)
    × (pauses (wait_for_ssm_online offline (codes "i-1") example_site).1.calls ≤ pauses [] + 36)
    × Ended offline 300 (run_remote offline (codes "i-1") (codes "true" ∷ []) example_site)
    × (pauses (run_remote offline (codes "i-1") (codes "true" ∷ []) example_site).1.calls
        ≤ pauses [] + 100)
waiting_ends_example =
    waiting_ends offline offline-Ticks (codes "i-1") (codes "true" ∷ []) example_site

-- A command that is not registered for ten seconds, and then at its end.
abbrev slow_answer : Bool → Reply Invocation
slow_answer true = answered success
slow_answer false = refused (some (codes "InvocationDoesNotExist"))

abbrev slow : Aws
slow = record offline { invocation = λ calls. slow_answer (leb 10 (slept_seconds calls)) }

slow-Ticks : Ticks slow
slow-Ticks = record { later = λ c h. omega arith; sleeps = λ n h. omega arith }

slow-Settled : (h : List Call) → Settled 10 (slept_seconds h) (slow.invocation h)
unfolding text_eq
slow-Settled h = one (leb 10 (slept_seconds h)) refl
  where
    one : (b : Bool) → leb 10 (slept_seconds h) ≡ b → Settled 10 (slept_seconds h) (slow_answer b)
    one true e = λ in_time. refl
    one false e = (refl, ground arith)

run_remote_returns_example :
    (inv : Invocation) × ((run_remote slow (codes "i-1") (codes "true" ∷ []) example_site).0
      ≡ done inv)
    × (contains terminal inv.status ≡ true)
run_remote_returns_example =
    run_remote_returns slow slow-Ticks (codes "i-1") 10 (codes "c-1")
      (λ h. slow-Settled (get_command_invocation (codes "c-1") (codes "i-1") ∷ h))
      (codes "true" ∷ []) example_site refl (omega arith)

-- What AWS answers where no instance is tagged.
abbrev vacant : Aws
vacant = record online { instances = λ calls. answered [] }

abbrev creation : Creation
creation = record {
  region = none;
  arch = arm64;
  instance_type = none;
  ami = none;
  volume_size = 20;
  allow_cidr = codes "0.0.0.0/0" ∷ [];
}

cmd_create_lem_example :
    Created vacant example_site (answered []) (cmd_create vacant creation example_site)
cmd_create_lem_example = cmd_create_lem vacant creation example_site

-- What AWS answers to filters where one instance is there.
abbrev listing : Bool → Reply (List Instance)
listing true = answered (one_instance ∷ [])
listing false = answered []

abbrev filtered : List Call → Reply (List Instance)
filtered (describe_instances filters ∷ calls) = listing (passes_all one_instance filters)
filtered _ = answered []

abbrev filtering : Aws
filtering = record online { instances = filtered }

listed_test : filtering.instances (describe_instances managed ∷ []) ≡ answered (one_instance ∷ [])
unfolding text_eq nat_eq
listed_test = refl

program_line_reads_back_example :
    words unquoted none (program_line (enroll (codes "a; reboot '") (codes "fp")))
    ≡ some (
        codes "python3"
        ∷ codes "-c"
        ∷ enroll_program
        ∷ argv_of (enroll (codes "a; reboot '") (codes "fp")))
program_line_reads_back_example =
    program_line_reads_back (enroll (codes "a; reboot '") (codes "fp"))

server_main-all_allowed_example :
    all_allowed
      (server_main online none
        (provision (codes "c") (codes "k") (codes "ca") true (some (codes "b")))
        example_site).1.calls
    ≡ true
unfolding all_allowed
server_main-all_allowed_example =
    server_main-all_allowed online none
      (provision (codes "c") (codes "k") (codes "ca") true (some (codes "b"))) example_site refl

server_main-Succeeded_example :
    Succeeded online (server_main online none (systemctl (codes "restart")) example_site).1
unfolding server_main server_dispatch remote_only ssm_target run_and_surface surface load_state
    resolve_instance_id discover_instances choose_instance ask try_else wait_for_ssm_online
    run_remote poll sleep look_online look_ended text_eq nat_eq
server_main-Succeeded_example =
    server_main-Succeeded online none (systemctl (codes "restart")) example_site refl
