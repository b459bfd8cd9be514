-- ===== src/Cloud/Aws.antt =====
-- browser-visit-tools/_bvl_aws.py: the region, the managed instance, remote commands, and the staging
-- bucket.
pub mod Polling
pub mod Reached
pub mod Resolved
use browser_visit_logger.Base.{
  ℕ, Text, Bool, true, false, Option, none, some, List, [], ◌∷◌, ◌++◌, ◌+◌, zero, suc,
  if◌then◌else◌, ◌==◌, contains, text_eq, nat_eq, leb, is_empty, map,
}
use browser_visit_logger.Base.Strings.{codes}
use browser_visit_logger.Cloud.Calls.{
  Aws, Site, Op, Filter, by_tag, by_state, Instance, Invocation, VmState, Exn, client_error,
  runtime_error, timeout_error, other_error, unfinished, ask, pure, raise, ◌>>=◌, ◌>>◌, try_else,
  error_code, Outcome, done, raised, describe_instances, describe_instance_information,
  send_command, get_command_invocation, get_caller_identity, head_bucket, create_bucket,
  put_lifecycle, upload, slept,
}

-- `TAG_ROLE`
abbrev pub role : Text × Text
role = (codes "bvl:role", codes "sync-server")

-- `TAG_MANAGED_BY` and `TAG_ROLE`
abbrev pub tags : List (Text × Text)
tags = (codes "bvl:managed-by", codes "browser-visit-tools") ∷ role ∷ []

-- `LIVE_STATES`
abbrev pub live_states : List Text
live_states = codes "pending" ∷ codes "running" ∷ codes "stopping" ∷ codes "stopped" ∷ []

-- The filters of `discover_instances`: the role tag and the live states
abbrev pub managed : List Filter
managed = by_tag role.0 (role.1 ∷ []) ∷ by_state live_states ∷ []

abbrev pub grpc_port : Text
grpc_port = codes "50443"

-- Python's `or` between two texts that may be missing
abbrev pub or_else : Option Text → Option Text → Option Text
or_else none other = other
or_else (some []) other = other
or_else (some (c ∷ t)) other = some (c ∷ t)

-- Of an f-string
abbrev pub shown : Option Text → Text
shown none = codes "None"
shown (some t) = t

abbrev pub ids : List Instance → List Text
ids found = map (λ i. i.instance_id) found

abbrev pub only_instance : List Instance → Op Text
only_instance [] = raise runtime_error
only_instance (i ∷ []) = pure i.instance_id
only_instance (i ∷ j ∷ found) = raise runtime_error

-- The instance of the state file if it is among the live ones, or else the only one.
unfoldable pub choose_instance : Option Text → List Instance → Op Text
unfolding text_eq
choose_instance none found = only_instance found
choose_instance (some want) found =
    if is_empty want
    then only_instance found
    else if contains (ids found) want
    then pure want
    else only_instance found

-- `_SSM_TERMINAL`
abbrev pub terminal : List Text
terminal = codes "Success" ∷ codes "Cancelled" ∷ codes "Failed" ∷ codes "TimedOut" ∷ []

abbrev pub is_online : List Text → Bool
unfolding text_eq
is_online [] = false
is_online (status ∷ statuses) = status == codes "Online"

abbrev pub online_now : List Text → Option (Unit {0})
online_now statuses = if is_online statuses then some tt else none

abbrev pub ended : Invocation → Option Invocation
unfolding text_eq
ended inv = if contains terminal inv.status then some inv else none

abbrev pub is_missing : Option Text → Bool
unfolding text_eq
is_missing none = false
is_missing (some code) = code == codes "InvocationDoesNotExist"

abbrev pub is_absent : Option Text → Bool
unfolding text_eq
is_absent none = false
is_absent (some code) = contains (codes "404" ∷ codes "NoSuchBucket" ∷ codes "NotFound" ∷ []) code

abbrev pub location : Text → Option Text
unfolding text_eq
location region = if region == codes "us-east-1" then none else some region

module _ (aws : Aws) where
  -- `resolve_region`
  unfoldable pub resolve_region : Option Text → Option Text
  resolve_region region = or_else region (or_else aws.region_variable none)

  -- `discover_instances`
  unfoldable pub discover_instances : Op (List Instance)
  discover_instances = ask (describe_instances managed) aws.instances

  -- `resolve_instance_id`
  unfoldable pub resolve_instance_id : VmState → Op Text
  resolve_instance_id state =
      discover_instances >>= λ found. choose_instance state.instance_id found

  -- `time.sleep`, which no call answers
  unfoldable pub sleep : ℕ → Op (Unit {0})
  sleep seconds s = (done tt, record s { calls = slept seconds ∷ s.calls })

  -- The `while True` of both loops: an attempt that brings nothing is made again after a pause, unless
  -- the deadline has passed.
  module _ {A : Type 0} (interval deadline : ℕ) where
    abbrev pub after_attempt : Op A → Outcome (Option A) × Site → Outcome A × Site
    after_attempt again (done (some a), s) = (done a, s)
    after_attempt again (done none, s) = elim (leb deadline (aws.clock s.calls)) [
      | true ↦ (raised timeout_error, s)
      | false ↦ again s
    ]
    after_attempt again (raised e, s) = (raised e, s)

    unfoldable pub poll : Op (Option A) → ℕ → Op A
    poll attempt zero s = (raised unfinished, s)
    poll attempt (suc fuel) s =
        after_attempt (sleep interval >>= λ _. poll attempt fuel) (attempt s)

  -- `deadline = monotonic() + timeout`
  abbrev pub by_deadline : {A : Type 0} → ℕ → (ℕ → Op A) → Op A
  by_deadline timeout k s = k (aws.clock s.calls + timeout) s

  -- One turn of `wait_for_ssm_online`
  unfoldable pub look_online : Text → Op (Option (Unit {0}))
  look_online id = do
    statuses ← ask (describe_instance_information id) aws.ping_statuses
    pure (online_now statuses)

  -- `wait_for_ssm_online`, with a timeout of 180 seconds and pauses of 5: 36 pauses reach it.
  unfoldable pub wait_for_ssm_online : Text → Op (Unit {0})
  wait_for_ssm_online id = by_deadline 180 λ deadline. poll 5 deadline (look_online id) 37

  -- One turn of `run_remote`: an invocation that is not registered yet, or that is not at its end, is
  -- looked at again.
  unfoldable pub look_ended : Text → Text → Op (Option Invocation)
  look_ended command_id id =
      try_else
        (do inv ← ask (get_command_invocation command_id id) aws.invocation; pure (ended inv))
        (λ e. if is_missing (error_code e) then pure none else raise e)

  -- `run_remote`, with a timeout of 300 seconds and pauses of 3: 100 pauses reach it.
  unfoldable pub run_remote : Text → List Text → Op Invocation
  run_remote id lines = do
    command_id ← ask (send_command id lines) aws.command_id
    by_deadline 300 λ deadline. poll 3 deadline (look_ended command_id id) 101

  -- `staging_bucket_name`
  unfoldable pub staging_bucket_name : Option Text → Op Text
  staging_bucket_name region = do
    account ← ask get_caller_identity aws.account
    pure (codes "bvl-sync-deploy-" ++ (account ++ (codes "-" ++ shown region)))

  -- `ensure_bucket`
  unfoldable pub ensure_bucket : Text → Text → Op (Unit {0})
  ensure_bucket name region = do
    try_else (ask (head_bucket name) aws.perform) (λ e.
        if is_absent (error_code e)
        then ask (create_bucket name (location region)) aws.perform
        else raise e)
    ask (put_lifecycle name) aws.perform

  -- `upload_file`
  unfoldable pub upload_file : Text → Text → Text → Bool → Op (Unit {0})
  upload_file path bucket key encrypt = ask (upload path bucket key encrypt) aws.perform
