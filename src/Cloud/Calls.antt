-- ===== src/Cloud/Calls.antt =====
-- The calls that the tools make through `_bvl_aws.client`, and operations as runs that make calls,
-- read and write the state file, and end with a value or an exception. What AWS answers to a call is a
-- function of the calls so far, the newest first; so is the clock.
pub mod Rules
use browser_visit_logger.Base.{
  ℕ, Text, Bool, true, false, Option, none, some, List, [], ◌∷◌, if◌then◌else◌,
}

-- An instance, as `describe_instances` shows it.
pub record Instance : Type 0 where
  pub instance_id : Text
  pub state_name : Text
  pub tags : List (Text × Text)

-- The filters `tag:<key>` and `instance-state-name` of `describe_instances`, with their values.
pub data Filter : Type 0 where
  by_tag : (key : Text) (values : List Text) → Filter
  by_state : (values : List Text) → Filter

-- An answer of `get_command_invocation`; a missing status is empty, and `none` stands for the
-- response code -1.
pub record Invocation : Type 0 where
  pub status : Text
  pub exit_code : Option ℕ
  pub stdout : Text
  pub stderr : Text

-- The arguments of `run_instances`, and the region of its client.
pub record Launch : Type 0 where
  pub region : Option Text
  pub min_count : ℕ
  pub max_count : ℕ
  pub image : Text
  pub instance_type : Text
  pub group : Text
  pub profile : Text
  pub volume_size : ℕ
  pub tags : List (Text × Text)
  pub client_token : Text

pub data Action : Type 0 where
  start stop reboot terminate : Action

pub data Call : Type 0 where
  describe_instances : (filters : List Filter) → Call
  describe_instance : (instance_id : Text) → Call
  run_instances : (launch : Launch) → Call
  act : (action : Action) (instance_id : Text) → Call
  describe_security_groups create_security_group delete_security_group : Call
  authorize_ingress : (group cidr : Text) → Call
  get_role create_role attach_role_policy : Call
  put_role_policy : (bucket : Text) → Call
  get_instance_profile create_instance_profile add_role_to_instance_profile : Call
  remove_role_from_instance_profile delete_instance_profile : Call
  delete_role_policy detach_role_policy delete_role : Call
  get_caller_identity : Call
  get_parameter : (name : Text) → Call
  describe_instance_information : (instance_id : Text) → Call
  send_command : (instance_id : Text) (lines : List Text) → Call
  get_command_invocation : (command_id instance_id : Text) → Call
  head_bucket : (name : Text) → Call
  create_bucket : (name : Text) (location : Option Text) → Call
  put_lifecycle : (name : Text) → Call
  upload : (path bucket key : Text) (encrypt : Bool) → Call
  slept : (seconds : ℕ) → Call

-- `client_error` is an exception of a call, with its `error_code`; `other_error` an exception of
-- Python. `unfinished` is no exception: the fuel of a loop is used up.
pub data Exn : Type 0 where
  client_error : (code : Option Text) → Exn
  runtime_error timeout_error other_error unfinished : Exn

pub data Outcome (A : Type 0) : Type 0 where
  done : A → Outcome A
  raised : Exn → Outcome A

pub data Reply (A : Type 0) : Type 0 where
  answered : A → Reply A
  refused : (code : Option Text) → Reply A

-- The file vm.json; `none` for a key that it lacks or that is null.
pub record VmState : Type 0 where
  pub region : Option Text
  pub instance_id : Option Text
  pub arch : Option Text
  pub security_group_id : Option Text
  pub iam_instance_profile : Option Text

pub record Site : Type 0 where
  pub calls : List Call
  pub state : VmState

-- What lies outside: the answers, the clock, the environment variable `BVL_AWS_REGION`, the tokens of
-- `uuid4`, and the local files, each at a path whose `~` is expanded.
pub record Aws : Type 0 where
  pub instances : List Call → Reply (List Instance)
  pub security_groups : List Call → Reply (List Text)
  pub new_group : List Call → Reply Text
  pub parameter : List Call → Reply Text
  pub account : List Call → Reply Text
  pub launched : List Call → Reply Text
  pub ping_statuses : List Call → Reply (List Text)
  pub command_id : List Call → Reply Text
  pub invocation : List Call → Reply Invocation
  -- the calls whose answer is not used
  pub perform : List Call → Reply (Unit {0})
  pub clock : List Call → ℕ
  pub region_variable : Option Text
  pub token : List Call → Text
  pub read_bytes : Text → Option Text
  pub is_file : Text → Bool
  pub sha256 : Text → Text
  pub cert_fingerprint : Text → Option Text
  -- the directories of the files to deploy: deploy/, sealer/ and the snapshot library
  pub deploy_dir : Text
  pub sealer_dir : Text
  pub library_dir : Text
  -- `repr` of a text
  pub repr : Text → Text

abbrev pub Op : Type 0 → Type 0
Op A = Site → Outcome A × Site

abbrev pub pure : {A : Type 0} → A → Op A
pure a s = (done a, s)

abbrev pub raise : {A : Type 0} → Exn → Op A
raise e s = (raised e, s)

abbrev pub continue : {A B : Type 0} → (A → Op B) → Outcome A × Site → Outcome B × Site
continue f (done a, s) = f a s
continue f (raised e, s) = (raised e, s)

infixl 5 ◌>>=◌ ◌>>◌
abbrev pub ◌>>=◌ : {A B : Type 0} → Op A → (A → Op B) → Op B
◌>>=◌ m f s = continue f (m s)

abbrev pub ◌>>◌ : {B : Type 0} → Op (Unit {0}) → Op B → Op B
m >> k = m >>= λ _. k

abbrev pub answer : {A : Type 0} → Reply A → Site → Outcome A × Site
answer (answered a) s = (done a, s)
answer (refused code) s = (raised (client_error code), s)

-- Makes a call.
unfoldable pub ask : {A : Type 0} → Call → (List Call → Reply A) → Op A
ask c reply s = answer (reply (c ∷ s.calls)) (record s { calls = c ∷ s.calls })

-- `try: m except Exception as e: handler(e)`
abbrev pub caught : {A : Type 0} → (Exn → Op A) → Outcome A × Site → Outcome A × Site
caught h (done a, s) = (done a, s)
caught h (raised unfinished, s) = (raised unfinished, s)
caught h (raised (client_error code), s) = h (client_error code) s
caught h (raised runtime_error, s) = h runtime_error s
caught h (raised timeout_error, s) = h timeout_error s
caught h (raised other_error, s) = h other_error s

unfoldable pub try_else : {A : Type 0} → Op A → (Exn → Op A) → Op A
try_else m h s = caught h (m s)

-- `error_code`
abbrev pub error_code : Exn → Option Text
error_code (client_error code) = code
error_code runtime_error = none
error_code timeout_error = none
error_code other_error = none
error_code unfinished = none

unfoldable pub load_state : Op VmState
load_state s = (done s.state, s)

unfoldable pub save_state : VmState → Op (Unit {0})
save_state state s = (done tt, record s { state = state })
