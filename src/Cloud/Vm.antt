-- ===== src/Cloud/Vm.antt =====
-- browser-visit-tools/manage_vm.py: the life of the virtual machine. What a command prints is not
-- modelled.
pub mod Launches
pub mod Targets
use browser_visit_logger.Base.{
  ℕ, Text, Bool, true, false, Option, none, some, List, [], ◌∷◌, ◌++◌, if◌then◌else◌, ◌==◌, text_eq,
}
use browser_visit_logger.Base.Strings.{codes}
use browser_visit_logger.Cloud.Calls.{
  Aws, Site, Op, Instance, Launch, Action, start, stop, reboot, terminate, Call, Exn, client_error,
  runtime_error, timeout_error, other_error, unfinished, ask, pure, raise, ◌>>=◌, ◌>>◌, try_else,
  error_code, Outcome, done, raised, load_state, save_state, run_instances, act, describe_instance,
  describe_security_groups, create_security_group, delete_security_group, authorize_ingress,
  get_role, create_role, attach_role_policy, put_role_policy, get_instance_profile,
  create_instance_profile, add_role_to_instance_profile, remove_role_from_instance_profile,
  delete_instance_profile, delete_role_policy, detach_role_policy, delete_role, get_caller_identity,
  get_parameter,
}
use browser_visit_logger.Cloud.Aws.{
  tags, shown, or_else, resolve_region, discover_instances, resolve_instance_id,
}

pub data Arch : Type 0 where
  x86_64 arm64 : Arch

-- `_ARCH`
abbrev pub arch_name : Arch → Text
arch_name x86_64 = codes "x86_64"
arch_name arm64 = codes "arm64"

abbrev pub default_type : Arch → Text
default_type x86_64 = codes "t3.small"
default_type arm64 = codes "t4g.small"

-- The options of `create`.
pub record Creation : Type 0 where
  pub region : Option Text
  pub allow_cidr : List Text
  pub instance_type : Option Text
  pub volume_size : ℕ
  pub arch : Arch
  pub ami : Option Text

-- A command, with its options.
pub data VmCommand : Type 0 where
  create : (args : Creation) → VmCommand
  change : (action : Action) (region : Option Text) (purge_infra : Bool) → VmCommand
  status : (region : Option Text) → VmCommand

-- `except Exception as e: if error_code(e) != code: raise`
abbrev pub is_code : Text → Option Text → Bool
unfolding text_eq
is_code code none = false
is_code code (some c) = c == code

abbrev pub first_group : List Text → Option Text
first_group [] = none
first_group (group ∷ groups) = some group

-- `args.ami or …`
abbrev pub or_ask : Option Text → Op Text → Op Text
or_ask none m = m
or_ask (some []) m = m
or_ask (some (c ∷ t)) m = pure (c ∷ t)

abbrev pub or_text : Option Text → Text → Text
or_text none t = t
or_text (some []) t = t
or_text (some (c ∷ s)) t = c ∷ s

-- `except (RuntimeError, TimeoutError)`
abbrev pub exit_of : Outcome ℕ × Site → Outcome ℕ × Site
exit_of (done code, s) = (done code, s)
exit_of (raised runtime_error, s) = (done 1, s)
exit_of (raised timeout_error, s) = (done 1, s)
exit_of (raised (client_error code), s) = (raised (client_error code), s)
exit_of (raised other_error, s) = (raised other_error, s)
exit_of (raised unfinished, s) = (raised unfinished, s)

abbrev pub purges : Action → Bool → Bool
purges terminate purge = purge
purges start purge = false
purges stop purge = false
purges reboot purge = false

abbrev pub first_instance : List Instance → Op ℕ
first_instance [] = raise other_error
first_instance (i ∷ found) = pure 0

-- An exception is printed as a warning.
abbrev pub best_effort : Op (Unit {0}) → Op (Unit {0})
best_effort m = try_else m (λ e. pure tt)

abbrev pub profile_name : Text
profile_name = codes "bvl-sync-server-profile"

module _ (aws : Aws) where
  -- A call whose exception with that code leads to another one, or to none.
  abbrev pub perform_or : Text → Call → Op (Unit {0}) → Op (Unit {0})
  perform_or code c instead =
      try_else (ask c aws.perform) (λ e. if is_code code (error_code e) then instead else raise e)

  -- `_resolve_ami`
  unfoldable pub resolve_ami : Arch → Op Text
  resolve_ami arch =
      ask
        (get_parameter (
          codes "/aws/service/ami-amazon-linux-latest/al2023-ami-kernel-default-"
          ++ arch_name arch))
        aws.parameter

  unfoldable pub allow_each : Text → List Text → Op (Unit {0})
  allow_each group [] = pure tt
  allow_each group (cidr ∷ cidrs) = do
    perform_or (codes "InvalidPermission.Duplicate") (authorize_ingress group cidr) (pure tt)
    allow_each group cidrs

  abbrev pub group_or_new : Option Text → Op Text
  group_or_new none = ask create_security_group aws.new_group
  group_or_new (some group) = pure group

  -- `_ensure_security_group`
  unfoldable pub ensure_security_group : List Text → Op Text
  ensure_security_group cidrs = do
    groups ← ask describe_security_groups aws.security_groups
    group ← group_or_new (first_group groups)
    allow_each group cidrs
    pure group

  -- `_ensure_iam`
  unfoldable pub ensure_iam : Text → Option Text → Op Text
  ensure_iam account region = do
    perform_or (codes "NoSuchEntity") get_role (ask create_role aws.perform)
    ask attach_role_policy aws.perform
    ask (put_role_policy (codes "bvl-sync-deploy-" ++ (account ++ (codes "-" ++ shown region))))
        aws.perform
    perform_or (codes "NoSuchEntity") get_instance_profile (ask create_instance_profile aws.perform)
    perform_or (codes "LimitExceeded") add_role_to_instance_profile (pure tt)
    pure profile_name

  abbrev pub client_token : Option Text → List Call → Text
  client_token region calls =
      codes "bvl-sync-server-"
      ++ (or_text region (codes "default") ++ (codes "-" ++ aws.token calls))

  unfoldable pub launch : Creation → Option Text → Text → Text → Text → Op Text
  launch args region group profile image s =
      ask
        (run_instances (record {
          region = region;
          min_count = 1;
          max_count = 1;
          image = image;
          instance_type = or_text args.instance_type (default_type args.arch);
          group = group;
          profile = profile;
          volume_size = args.volume_size;
          tags = tags;
          client_token = client_token region s.calls;
        }))
        aws.launched s

  -- `cmd_create` where no instance is tagged.
  unfoldable pub create_new : Creation → Option Text → Op ℕ
  create_new args region = do
    account ← ask get_caller_identity aws.account
    group ← ensure_security_group args.allow_cidr
    profile ← ensure_iam account region
    image ← or_ask args.ami (resolve_ami args.arch)
    id ← launch args region group profile image
    save_state (record {
      region = region;
      instance_id = some id;
      arch = some (arch_name args.arch);
      security_group_id = some group;
      iam_instance_profile = some profile;
    })
    pure 0

  -- Where one is: the state file gets the region and the arch of this command.
  unfoldable pub keep_existing : Creation → Option Text → Instance → Op ℕ
  keep_existing args region i = do
    state ← load_state
    save_state (record state {
      region = region;
      instance_id = some i.instance_id;
      arch = some (arch_name args.arch);
    })
    pure 0

  abbrev pub create_with : Creation → Option Text → List Instance → Op ℕ
  create_with args region [] = create_new args region
  create_with args region (i ∷ []) = keep_existing args region i
  create_with args region (i ∷ j ∷ found) = pure 1

  -- `cmd_create`
  unfoldable pub cmd_create : Creation → Op ℕ
  cmd_create args =
      discover_instances aws >>= λ found. create_with args (resolve_region aws args.region) found

  -- `_resolve`
  unfoldable pub resolve : Op Text
  resolve = do state ← load_state; resolve_instance_id aws state

  -- `_purge_infra`
  unfoldable pub purge_infra : Op (Unit {0})
  purge_infra = do
    best_effort (ask delete_security_group aws.perform)
    best_effort (do
      ask remove_role_from_instance_profile aws.perform
      ask delete_instance_profile aws.perform
      ask delete_role_policy aws.perform
      ask detach_role_policy aws.perform
      ask delete_role aws.perform)

  unfoldable pub purge_if : Bool → Op (Unit {0})
  purge_if purge = if purge then purge_infra else pure tt

  -- `cmd_start`, `cmd_stop`, `cmd_reboot` and `cmd_terminate`; only the last one purges.
  unfoldable pub cmd_change : Action → Bool → Op ℕ
  cmd_change action purge = do id ← resolve; ask (act action id) aws.perform; purge_if purge; pure 0

  -- `cmd_status`
  unfoldable pub cmd_status : Op ℕ
  cmd_status = do
    id ← resolve
    found ← ask (describe_instance id) aws.instances
    first_instance found

  -- `_DISPATCH`
  unfoldable pub dispatch : VmCommand → Op ℕ
  dispatch (create args) = cmd_create args
  dispatch (change action region purge) = cmd_change action (purges action purge)
  dispatch (status region) = cmd_status

  -- `main`, behind the parser
  unfoldable pub vm_main : VmCommand → Op ℕ
  vm_main command s = exit_of (dispatch command s)
