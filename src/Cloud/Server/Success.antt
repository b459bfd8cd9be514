-- ===== src/Cloud/Server/Success.antt =====
-- What the exit code 0 means.
pub mod Steps
use browser_visit_logger.Base.{
  ℕ, Text, Bool, true, false, not, ◌&&◌, ◌||◌, Option, none, some, List, [], ◌∷◌, ◌≡◌, nat_eq,
  text_eq, zero, suc, arith, refl, sym, leb, contains, if◌then◌else◌, ◌==◌, is_empty, Bool-cases,
  inl, inr, ◌∙◌, ap,
}
use browser_visit_logger.Base.Strings.{codes}
use browser_visit_logger.Cloud.Calls.{
  Aws, Site, Op, Exn, VmState, Invocation, Outcome, done, raised, timeout_error, runtime_error,
  other_error, unfinished, client_error, Reply, answered, refused, get_command_invocation, pure,
  raise, ◌>>=◌, ◌>>◌, continue, caught, try_else, ask, answer, load_state, slept, error_code,
}
use browser_visit_logger.Cloud.Calls.Rules.{
  Returned, Ensures, Ensures-last, Ensures-bind, Ensures-if,
}
use browser_visit_logger.Cloud.Aws.{
  after_attempt, poll, sleep, look_ended, ended, is_missing, run_remote, terminal, upload_file,
}
use browser_visit_logger.Cloud.Vm.{exit_of, or_text}
use browser_visit_logger.Cloud.Server.Scripts.{
  provision_script, provision_drive_script, provision_sealer_script,
}
use browser_visit_logger.Cloud.Server.{
  EnrollArgs, ServerCommand, provision, deploy, systemctl, server_status, health, drive_status,
  provision_sealer, logs, provision_drive, sealer_run, enroll_machine, surface, is_zero,
  run_and_surface, remote_only, deploy_bytes, read_binary, deploy_to, cmd_provision,
  cmd_provision_drive, cmd_provision_sealer, cmd_deploy, check_arch, ssm_target, stage_clients,
  enroll_fp, cmd_enroll, server_dispatch, server_main,
}
use browser_visit_logger.Cloud.Server.Success.Steps.{
  Succeeded, Honest, Honest-surface, Honest-remote_only, Honest-code, Honest-raise,
}

module _ (aws : Aws) where
  Honest-deploy_to :
      (target : Option Text × Text) (binary : Option Text)
      → Ensures (deploy_to aws target binary) (Honest aws)
  unfolding deploy_to
  Honest-deploy_to target binary =
      Ensures-last (Honest aws) _ _ (λ bucket. read bucket (read_binary aws binary))
    where
      read :
          (bucket : Text) (o : Option Text)
          → Ensures (deploy_bytes aws (or_text binary []) o bucket target.1) (Honest aws)
      read bucket none = Honest-raise aws other_error
      read bucket (some bytes) = Ensures-last (Honest aws) _ _ (λ _. Honest-surface aws target.1 _)

  Honest-target :
      (region : Option Text) (k : Option Text × Text → Op ℕ)
      → ((target : Option Text × Text) → Ensures (k target) (Honest aws))
      → Ensures (ssm_target aws region >>= k) (Honest aws)
  Honest-target region k = Ensures-last (Honest aws) (ssm_target aws region) k

  Honest-stage :
      (region : Option Text) (k : Text → Op ℕ)
      → ((bucket : Text) → Ensures (k bucket) (Honest aws))
      → Ensures (stage_clients aws region >>= k) (Honest aws)
  Honest-stage region k = Ensures-last (Honest aws) (stage_clients aws region) k

  Honest-upload :
      (path bucket key : Text) (encrypt : Bool) (k : Op ℕ)
      → Ensures k (Honest aws)
      → Ensures (upload_file aws path bucket key encrypt >> k) (Honest aws)
  Honest-upload path bucket key encrypt k ek =
      Ensures-last (Honest aws) (upload_file aws path bucket key encrypt) (λ _. k) (λ _. ek)

  Honest-provision :
      (region : Option Text) (server_cert server_key clients_ca : Text) (and_deploy : Bool)
      (binary : Option Text)
      → Ensures
          (cmd_provision aws region server_cert server_key clients_ca and_deploy binary)
          (Honest aws)
  unfolding cmd_provision
  Honest-provision region server_cert server_key clients_ca and_deploy binary =
      Honest-target region _ (λ target. Honest-stage target.0 _ (λ bucket.
        Honest-upload _ bucket _ false _ (
          Honest-upload server_cert bucket _ true _ (
            Honest-upload server_key bucket _ true _ (
              Honest-upload clients_ca bucket _ true _ (
                Ensures-bind (Honest aws) (Honest aws)
                  (run_and_surface aws target.1 (provision_script bucket)) _
                  (Honest-surface aws target.1 (provision_script bucket))
                  (λ code s h. chained target code s h (code == 0 && and_deploy))))))))
    where
      chained :
          (target : Option Text × Text) (code : ℕ) (s : Site)
          → Honest aws code s
          → (b : Bool)
          → Returned (Honest aws) ((if b then deploy_to aws target binary else pure code) s)
      chained target code s h true = (Honest-deploy_to target binary).at s
      chained target code s h false = h

  Honest-provision_drive :
      (region : Option Text) (service_account root_folder_id : Text)
      → Ensures (cmd_provision_drive aws region service_account root_folder_id) (Honest aws)
  unfolding cmd_provision_drive
  Honest-provision_drive region service_account root_folder_id =
      Ensures-if (Honest aws) (not (aws.is_file service_account)) _ _ (Honest-code aws 0) (
        Honest-target region _ (λ target. Honest-stage target.0 _ (λ bucket.
          Honest-upload _ bucket _ false _ (
            Honest-upload service_account bucket _ true _
              (Honest-surface aws target.1 (provision_drive_script bucket root_folder_id))))))

  Honest-provision_sealer :
      (region : Option Text) → Ensures (cmd_provision_sealer aws region) (Honest aws)
  unfolding cmd_provision_sealer
  Honest-provision_sealer region = Honest-target region _ (λ target.
      Honest-stage target.0 _ (λ bucket. Honest-upload _ bucket _ false _ (
        Honest-upload _ bucket _ false _ (
          Honest-upload _ bucket _ false _ (
            Honest-upload _ bucket _ false _
              (Honest-surface aws target.1 (provision_sealer_script bucket)))))))

  Honest-deploy :
      (region : Option Text) (binary : Text) (force : Bool)
      → Ensures (cmd_deploy aws region binary force) (Honest aws)
  unfolding cmd_deploy
  Honest-deploy region binary force =
      Ensures-if (Honest aws) (not (aws.is_file binary)) _ _ (Honest-code aws 0) (
        Ensures-last (Honest aws) load_state _ (λ state.
          Ensures-if (Honest aws) (check_arch aws binary state && not force) _ _ (Honest-code aws 0)
            (Honest-target region _ (λ target. Honest-deploy_to target (some binary)))))

  Honest-enroll :
      (region : Option Text) (args : EnrollArgs) → Ensures (cmd_enroll aws region args) (Honest aws)
  unfolding cmd_enroll
  Honest-enroll region args =
      Ensures-if (Honest aws) args.list _ _ (Honest-remote_only aws region _) (
        Ensures-if (Honest aws) args.revoke _ _
          (Ensures-if (Honest aws) _ _ _ (Honest-code aws 1) (Honest-remote_only aws region _))
          (Ensures-if (Honest aws) _ _ _ (Honest-code aws 1)
            (accepted (aws.cert_fingerprint args.cert))))
    where
      accepted : (o : Option Text) → Ensures (enroll_fp aws region args.machine_id o) (Honest aws)
      accepted none = Honest-raise aws other_error
      accepted (some fp) = Honest-remote_only aws region _

  Honest-dispatch :
      (region : Option Text) (command : ServerCommand)
      → Ensures (server_dispatch aws region command) (Honest aws)
  unfolding server_dispatch
  Honest-dispatch region (provision server_cert server_key clients_ca and_deploy binary) =
      Honest-provision region server_cert server_key clients_ca and_deploy binary
  Honest-dispatch region (deploy binary force) = Honest-deploy region binary force
  Honest-dispatch region (systemctl action) = Honest-remote_only aws region _
  Honest-dispatch region server_status = Honest-remote_only aws region _
  Honest-dispatch region health = Honest-remote_only aws region _
  Honest-dispatch region drive_status = Honest-remote_only aws region _
  Honest-dispatch region provision_sealer = Honest-provision_sealer region
  Honest-dispatch region (logs lines since) = Honest-remote_only aws region _
  Honest-dispatch region (provision_drive service_account root_folder_id) =
      Honest-provision_drive region service_account root_folder_id
  Honest-dispatch region (sealer_run dry_run) = Honest-remote_only aws region _
  Honest-dispatch region (enroll_machine args) = Honest-enroll region args

  exited :
      (r : Outcome ℕ × Site)
      → Returned (Honest aws) r
      → (exit_of r).0 ≡ done 0
      → Succeeded aws (exit_of r).1
  exited (done code, s) h e = h (ground arith)
  exited (raised runtime_error, s) h e = absurd (ground arith)
  exited (raised timeout_error, s) h e = absurd (ground arith)
  exited (raised (client_error code), s) h e = absurd (cc)
  exited (raised other_error, s) h e = absurd (cc)
  exited (raised unfinished, s) h e = absurd (cc)

  -- A command exits with 0 only if the last thing that it saw was a remote command that ended with the
  -- status Success and the response code 0: no refusal, no timeout and no failed script exits so.
  pub server_main-Succeeded :
      (region : Option Text) (command : ServerCommand) (s : Site)
      → (server_main aws region command s).0 ≡ done 0
      → Succeeded aws (server_main aws region command s).1
  unfolding server_main
  server_main-Succeeded region command s e =
      exited (server_dispatch aws region command s) ((Honest-dispatch region command).at s) e
