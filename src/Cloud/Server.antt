-- ===== src/Cloud/Server.antt =====
-- browser-visit-tools/manage_sync_server.py: the commands that operate the server on the machine. What
-- a command prints is not modelled.
pub mod Scripts
pub mod Quoted
pub mod Scope
pub mod Success
use browser_visit_logger.Base.{
  ℕ, Text, Bool, true, false, not, ◌&&◌, ◌||◌, Option, none, some, List, [], ◌∷◌, ◌++◌,
  if◌then◌else◌, ◌==◌, text_eq, nat_eq, is_empty,
}
use browser_visit_logger.Base.Strings.{codes, has_part}
use browser_visit_logger.Paths.{path_join, basename}
use browser_visit_logger.Cloud.Calls.{
  Aws, Site, Op, Invocation, VmState, Exn, client_error, runtime_error, timeout_error, other_error,
  unfinished, pure, raise, ◌>>=◌, ◌>>◌, Outcome, done, raised, load_state,
}
use browser_visit_logger.Cloud.Aws.{
  or_else, resolve_region, resolve_instance_id, wait_for_ssm_online, run_remote,
  staging_bucket_name, ensure_bucket, upload_file,
}
use browser_visit_logger.Cloud.Vm.{or_text, exit_of}
use browser_visit_logger.Cloud.Server.Scripts.{
  provision_script, provision_drive_script, drive_status_script, provision_sealer_script,
  sealer_run_script, deploy_script, status_script, logs_script, health_script, EnrollOp,
  list_machines, revoke, enroll, enroll_remote,
}

-- The options of `enroll`; an option that is not given is empty.
pub record EnrollArgs : Type 0 where
  pub machine_id : Text
  pub cert : Text
  pub revoke : Bool
  pub list : Bool

-- A command with its options; `systemctl` is `start`, `stop` and `restart`.
pub data ServerCommand : Type 0 where
  provision :
      (server_cert server_key clients_ca : Text) (and_deploy : Bool) (binary : Option Text)
      → ServerCommand
  deploy : (binary : Text) (force : Bool) → ServerCommand
  systemctl : (action : Text) → ServerCommand
  server_status health drive_status provision_sealer : ServerCommand
  logs : (lines : ℕ) (since : Option Text) → ServerCommand
  provision_drive : (service_account root_folder_id : Text) → ServerCommand
  sealer_run : (dry_run : Bool) → ServerCommand
  enroll_machine : (args : EnrollArgs) → ServerCommand

abbrev pub is_zero : Option ℕ → Bool
unfolding nat_eq
is_zero none = false
is_zero (some n) = n == 0

-- `_surface`
unfoldable pub surface : Invocation → ℕ
unfolding text_eq nat_eq
surface inv = if inv.status == codes "Success" && is_zero inv.exit_code then 0 else 1

-- `_GOARCH`
abbrev pub goarch : Option Text → Option Text
unfolding text_eq
goarch none = none
goarch (some arch) =
    if arch == codes "x86_64"
    then some (codes "amd64")
    else if arch == codes "arm64"
    then some (codes "arm64")
    else none

abbrev pub lacks_token : Option Text → Text → Bool
lacks_token none name = false
lacks_token (some token) name = not (has_part token name)

module _ (aws : Aws) where
  -- `_ssm_target`: the region and the instance
  unfoldable pub ssm_target : Option Text → Op (Option Text × Text)
  ssm_target region = do
    state ← load_state
    id ← resolve_instance_id aws state
    wait_for_ssm_online aws id
    pure (or_else (resolve_region aws region) state.region, id)

  -- `_stage_clients`: the bucket
  unfoldable pub stage_clients : Option Text → Op Text
  stage_clients region = do
    bucket ← staging_bucket_name aws region
    ensure_bucket aws bucket (or_text region (codes "us-east-1"))
    pure bucket

  -- `_surface(aws.run_remote(…))`
  unfoldable pub run_and_surface : Text → List Text → Op ℕ
  run_and_surface id lines = do inv ← run_remote aws id lines; pure (surface inv)

  -- A command that only runs lines on the machine.
  unfoldable pub remote_only : Option Text → List Text → Op ℕ
  remote_only region lines = ssm_target region >>= λ target. run_and_surface target.1 lines

  abbrev pub deploy_bytes : Text → Option Text → Text → Text → Op ℕ
  deploy_bytes binary none bucket id = raise other_error
  deploy_bytes binary (some bytes) bucket id = do
    let key = codes "sync-server/" ++ aws.sha256 bytes
    upload_file aws binary bucket key false
    run_and_surface id (deploy_script bucket key)

  abbrev pub read_binary : Option Text → Option Text
  read_binary none = none
  read_binary (some binary) = aws.read_bytes binary

  -- `_deploy`; without `--binary` there is nothing to read.
  unfoldable pub deploy_to : Option Text × Text → Option Text → Op ℕ
  deploy_to target binary = do
    bucket ← stage_clients target.0
    deploy_bytes (or_text binary []) (read_binary binary) bucket target.1

  -- `cmd_provision`
  unfoldable pub cmd_provision : Option Text → Text → Text → Text → Bool → Option Text → Op ℕ
  cmd_provision region server_cert server_key clients_ca and_deploy binary = do
    target ← ssm_target region
    bucket ← stage_clients target.0
    upload_file aws (path_join aws.deploy_dir (codes "sync-server.service")) bucket
        (codes "deploy/sync-server.service") false
    upload_file aws server_cert bucket (codes "tls/server.crt") true
    upload_file aws server_key bucket (codes "tls/server.key") true
    upload_file aws clients_ca bucket (codes "tls/clients-ca.crt") true
    code ← run_and_surface target.1 (provision_script bucket)
    if code == 0 && and_deploy then deploy_to target binary else pure code

  -- `cmd_provision_drive`
  unfoldable pub cmd_provision_drive : Option Text → Text → Text → Op ℕ
  cmd_provision_drive region service_account root_folder_id =
      if not (aws.is_file service_account) then pure 1 else (do
        target ← ssm_target region
        bucket ← stage_clients target.0
        upload_file aws (path_join aws.deploy_dir (codes "gdrive-snapshots.service")) bucket
            (codes "deploy/gdrive-snapshots.service") false
        upload_file aws service_account bucket (codes "gdrive/gdrive-sa.json") true
        run_and_surface target.1 (provision_drive_script bucket root_folder_id))

  -- `cmd_provision_sealer`
  unfoldable pub cmd_provision_sealer : Option Text → Op ℕ
  cmd_provision_sealer region = do
    target ← ssm_target region
    bucket ← stage_clients target.0
    upload_file aws (path_join aws.library_dir (codes "snapshot_mover.py")) bucket
        (codes "sealer/snapshot_mover.py") false
    upload_file aws (path_join aws.sealer_dir (codes "seal_completed_days.py")) bucket
        (codes "sealer/seal_completed_days.py") false
    upload_file aws (path_join aws.deploy_dir (codes "gdrive-verifier.service")) bucket
        (codes "deploy/gdrive-verifier.service") false
    upload_file aws (path_join aws.deploy_dir (codes "gdrive-verifier.timer")) bucket
        (codes "deploy/gdrive-verifier.timer") false
    run_and_surface target.1 (provision_sealer_script bucket)

  -- `_check_arch`: whether there is a problem
  unfoldable pub check_arch : Text → VmState → Bool
  check_arch binary state = lacks_token (goarch state.arch) (basename binary)

  -- `cmd_deploy`
  unfoldable pub cmd_deploy : Option Text → Text → Bool → Op ℕ
  cmd_deploy region binary force = if not (aws.is_file binary) then pure 1 else (do
    state ← load_state
    (if check_arch binary state && not force
        then pure 1
        else (ssm_target region >>= λ target. deploy_to target (some binary))))

  abbrev pub run_enroll : Option Text → EnrollOp → Op ℕ
  run_enroll region op = remote_only region (enroll_remote op)

  abbrev pub enroll_fp : Option Text → Text → Option Text → Op ℕ
  enroll_fp region machine_id none = raise other_error
  enroll_fp region machine_id (some fp) = run_enroll region (enroll machine_id fp)

  -- `cmd_enroll`
  unfoldable pub cmd_enroll : Option Text → EnrollArgs → Op ℕ
  cmd_enroll region args =
      if args.list
      then run_enroll region list_machines
      else if args.revoke
      then (if is_empty args.machine_id then pure 2 else run_enroll region (revoke args.machine_id))
      else if is_empty args.machine_id || is_empty args.cert
      then pure 2
      else enroll_fp region args.machine_id (aws.cert_fingerprint args.cert)

  -- `_DISPATCH`
  unfoldable pub server_dispatch : Option Text → ServerCommand → Op ℕ
  server_dispatch region (provision server_cert server_key clients_ca and_deploy binary) =
      cmd_provision region server_cert server_key clients_ca and_deploy binary
  server_dispatch region (deploy binary force) = cmd_deploy region binary force
  server_dispatch region (systemctl action) =
      remote_only region ((codes "systemctl " ++ (action ++ codes " sync-server")) ∷ [])
  server_dispatch region server_status = remote_only region status_script
  server_dispatch region health = remote_only region health_script
  server_dispatch region drive_status = remote_only region drive_status_script
  server_dispatch region provision_sealer = cmd_provision_sealer region
  server_dispatch region (logs lines since) = remote_only region (logs_script aws.repr lines since)
  server_dispatch region (provision_drive service_account root_folder_id) =
      cmd_provision_drive region service_account root_folder_id
  server_dispatch region (sealer_run dry_run) = remote_only region (sealer_run_script dry_run)
  server_dispatch region (enroll_machine args) = cmd_enroll region args

  -- `main`, behind the parser
  unfoldable pub server_main : Option Text → ServerCommand → Op ℕ
  server_main region command s = exit_of (server_dispatch region command s)
