-- ===== src/Cloud/Server/Scope.antt =====
-- What the commands may call.
pub mod Steps
use browser_visit_logger.Base.{
  ℕ, Text, Bool, true, false, not, ◌&&◌, ◌||◌, Option, none, some, List, [], ◌∷◌, ◌≡◌, nat_eq,
  text_eq, zero, suc, arith, refl, sym, leb, ◌++◌, if◌then◌else◌, ◌==◌, is_empty,
}
use mathlib.Core.Path.{subst}
use browser_visit_logger.Base.Strings.{codes, starts_with, after_prefix}
use browser_visit_logger.Paths.{path_join}
use browser_visit_logger.Cloud.Calls.{
  Aws, Site, Op, Call, Exn, VmState, Outcome, done, raised, timeout_error, runtime_error,
  other_error, unfinished, client_error, describe_instances, describe_instance, run_instances, act,
  describe_security_groups, create_security_group, delete_security_group, authorize_ingress,
  get_role, create_role, attach_role_policy, put_role_policy, get_instance_profile,
  create_instance_profile, add_role_to_instance_profile, remove_role_from_instance_profile,
  delete_instance_profile, delete_role_policy, detach_role_policy, delete_role, get_caller_identity,
  get_parameter, describe_instance_information, send_command, get_command_invocation, head_bucket,
  create_bucket, put_lifecycle, upload, slept, pure, raise, ◌>>=◌, load_state,
}
use browser_visit_logger.Cloud.Calls.Rules.{
  Stable, Stable-pure, Stable-raise, Stable-ask, Stable-if, Stable-bind, Stable-try_else,
  Stable-load_state,
}
use browser_visit_logger.Cloud.Aws.{
  discover_instances, choose_instance, resolve_instance_id, sleep, after_attempt, poll, by_deadline,
  look_online, wait_for_ssm_online, look_ended, run_remote, staging_bucket_name, ensure_bucket,
  upload_file,
}
use browser_visit_logger.Cloud.Aws.Resolved.{choose_instance-site}
use browser_visit_logger.Cloud.Vm.{exit_of, or_text}
use browser_visit_logger.Cloud.Server.{
  EnrollArgs, ServerCommand, provision, deploy, systemctl, server_status, health, drive_status,
  provision_sealer, logs, provision_drive, sealer_run, enroll_machine, ssm_target, stage_clients,
  run_and_surface, remote_only, deploy_bytes, read_binary, deploy_to, cmd_provision,
  cmd_provision_drive, cmd_provision_sealer, cmd_deploy, check_arch, run_enroll, enroll_fp,
  cmd_enroll, server_dispatch, server_main,
}
use browser_visit_logger.Cloud.Server.Scope.Steps.{
  is_secret, all_allowed, InScope, InScope-upload, InScope-stage, InScope-target, InScope-surface,
  InScope-remote_only,
}

module _ (aws : Aws) where
  -- The key of a binary is no secret's.
  key_lem : (digest : Text) → is_secret (codes "sync-server/" ++ digest) ≡ false
  unfolding is_secret
  key_lem digest = refl

  InScope-deploy_to :
      (target : Option Text × Text) (binary : Option Text)
      → Stable InScope (deploy_to aws target binary)
  unfolding deploy_to
  InScope-deploy_to target binary =
      Stable-bind InScope _ _ (InScope-stage aws target.0)
        (λ bucket. read bucket (read_binary aws binary))
    where
      read :
          (bucket : Text) (o : Option Text)
          → Stable InScope (deploy_bytes aws (or_text binary []) o bucket target.1)
      read bucket none = Stable-raise InScope other_error
      read bucket (some bytes) =
          Stable-bind InScope _ _
            (InScope-upload aws _ bucket (codes "sync-server/" ++ aws.sha256 bytes) false
              (rw (key_lem (aws.sha256 bytes)) refl))
            (λ _. InScope-surface aws target.1 _)

  InScope-provision :
      (region : Option Text) (server_cert server_key clients_ca : Text) (and_deploy : Bool)
      (binary : Option Text)
      → Stable InScope
          (cmd_provision aws region server_cert server_key clients_ca and_deploy binary)
  unfolding cmd_provision is_secret
  InScope-provision region server_cert server_key clients_ca and_deploy binary =
      Stable-bind InScope _ _ (InScope-target aws region) (λ target.
        Stable-bind InScope _ _ (InScope-stage aws target.0) (λ bucket.
          Stable-bind InScope _ _
            (InScope-upload aws _ bucket (codes "deploy/sync-server.service") false refl)
            (λ _. Stable-bind InScope _ _ (InScope-upload aws _ bucket _ true refl) (λ _.
              Stable-bind InScope _ _ (InScope-upload aws _ bucket _ true refl) (λ _.
                Stable-bind InScope _ _ (InScope-upload aws _ bucket _ true refl) (λ _.
                  Stable-bind InScope _ _ (InScope-surface aws target.1 _) (λ code.
                    Stable-if InScope (code == 0 && and_deploy) _ _
                      (InScope-deploy_to target binary) (Stable-pure InScope code))))))))

  InScope-provision_drive :
      (region : Option Text) (service_account root_folder_id : Text)
      → Stable InScope (cmd_provision_drive aws region service_account root_folder_id)
  unfolding cmd_provision_drive is_secret
  InScope-provision_drive region service_account root_folder_id =
      Stable-if InScope _ _ _ (Stable-pure InScope 1) (
        Stable-bind InScope _ _ (InScope-target aws region) (λ target.
          Stable-bind InScope _ _ (InScope-stage aws target.0) (λ bucket.
            Stable-bind InScope _ _
              (InScope-upload aws _ bucket (codes "deploy/gdrive-snapshots.service") false refl)
              (λ _.
                Stable-bind InScope _ _ (InScope-upload aws _ bucket _ true refl)
                  (λ _. InScope-surface aws target.1 _)))))

  InScope-provision_sealer :
      (region : Option Text) → Stable InScope (cmd_provision_sealer aws region)
  unfolding cmd_provision_sealer is_secret
  InScope-provision_sealer region = Stable-bind InScope _ _ (InScope-target aws region) (λ target.
      Stable-bind InScope _ _ (InScope-stage aws target.0) (λ bucket.
        Stable-bind InScope _ _
          (InScope-upload aws _ bucket (codes "sealer/snapshot_mover.py") false refl)
          (λ _.
            Stable-bind InScope _ _
              (InScope-upload aws _ bucket (codes "sealer/seal_completed_days.py") false refl)
              (λ _.
                Stable-bind InScope _ _
                  (InScope-upload aws _ bucket (codes "deploy/gdrive-verifier.service") false refl)
                  (λ _.
                    Stable-bind InScope _ _
                      (InScope-upload aws _ bucket (codes "deploy/gdrive-verifier.timer") false
                        refl)
                      (λ _. InScope-surface aws target.1 _))))))

  InScope-cmd_deploy :
      (region : Option Text) (binary : Text) (force : Bool)
      → Stable InScope (cmd_deploy aws region binary force)
  unfolding cmd_deploy
  InScope-cmd_deploy region binary force = Stable-if InScope _ _ _ (Stable-pure InScope 1) (
      Stable-bind InScope _ _ (Stable-load_state InScope) (λ state.
        Stable-if InScope _ _ _ (Stable-pure InScope 1) (
          Stable-bind InScope _ _ (InScope-target aws region)
            (λ target. InScope-deploy_to target (some binary)))))

  InScope-cmd_enroll :
      (region : Option Text) (args : EnrollArgs) → Stable InScope (cmd_enroll aws region args)
  unfolding cmd_enroll
  InScope-cmd_enroll region args =
      Stable-if InScope args.list _ _ (InScope-remote_only aws region _) (
        Stable-if InScope args.revoke _ _
          (Stable-if InScope _ _ _ (Stable-pure InScope 2) (InScope-remote_only aws region _))
          (Stable-if InScope _ _ _ (Stable-pure InScope 2)
            (accepted (aws.cert_fingerprint args.cert))))
    where
      accepted : (o : Option Text) → Stable InScope (enroll_fp aws region args.machine_id o)
      accepted none = Stable-raise InScope other_error
      accepted (some fp) = InScope-remote_only aws region _

  InScope-dispatch :
      (region : Option Text) (command : ServerCommand)
      → Stable InScope (server_dispatch aws region command)
  unfolding server_dispatch
  InScope-dispatch region (provision server_cert server_key clients_ca and_deploy binary) =
      InScope-provision region server_cert server_key clients_ca and_deploy binary
  InScope-dispatch region (deploy binary force) = InScope-cmd_deploy region binary force
  InScope-dispatch region (systemctl action) = InScope-remote_only aws region _
  InScope-dispatch region server_status = InScope-remote_only aws region _
  InScope-dispatch region health = InScope-remote_only aws region _
  InScope-dispatch region drive_status = InScope-remote_only aws region _
  InScope-dispatch region provision_sealer = InScope-provision_sealer region
  InScope-dispatch region (logs lines since) = InScope-remote_only aws region _
  InScope-dispatch region (provision_drive service_account root_folder_id) =
      InScope-provision_drive region service_account root_folder_id
  InScope-dispatch region (sealer_run dry_run) = InScope-remote_only aws region _
  InScope-dispatch region (enroll_machine args) = InScope-cmd_enroll region args

  exit_of-calls : (r : Outcome ℕ × Site) → (exit_of r).1 ≡ r.1
  exit_of-calls (done code, s) = refl
  exit_of-calls (raised runtime_error, s) = refl
  exit_of-calls (raised timeout_error, s) = refl
  exit_of-calls (raised (client_error code), s) = refl
  exit_of-calls (raised other_error, s) = refl
  exit_of-calls (raised unfinished, s) = refl

  -- No command launches, starts, stops, reboots or terminates an instance or touches the security group
  -- or the IAM role, and every key of the TLS material or the service account is uploaded encrypted,
  -- whether the command returns or raises.
  pub server_main-all_allowed :
      (region : Option Text) (command : ServerCommand) (s : Site)
      → all_allowed s.calls ≡ true
      → all_allowed (server_main aws region command s).1.calls ≡ true
  unfolding server_main
  server_main-all_allowed region command s p =
      subst (λ (t : Site). InScope t.calls)
        (sym (exit_of-calls (server_dispatch aws region command s)))
        ((InScope-dispatch region command).at s p)
