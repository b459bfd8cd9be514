-- ===== src/Cloud/Server/Scope/Steps.antt =====
-- What the parts of a command may call.
use browser_visit_logger.Base.{
  ℕ, Text, Bool, true, false, not, ◌&&◌, ◌||◌, Option, none, some, List, [], ◌∷◌, ◌≡◌, nat_eq,
  text_eq, zero, suc, arith, refl, sym, leb,
}
use mathlib.Core.Path.{subst}
use browser_visit_logger.Base.Strings.{codes, starts_with, after_prefix}
use browser_visit_logger.Cloud.Calls.{
  Aws, Site, Op, Call, VmState, Outcome, done, raised, describe_instances, get_caller_identity,
  describe_instance_information, send_command, get_command_invocation, head_bucket, create_bucket,
  put_lifecycle, upload, slept,
}
use browser_visit_logger.Cloud.Calls.Rules.{
  Stable, Stable-pure, Stable-raise, Stable-ask, Stable-if, Stable-bind, Stable-try_else,
  Stable-load_state,
}
use browser_visit_logger.Cloud.Aws.{
  managed, discover_instances, resolve_instance_id, sleep, after_attempt, poll, look_online,
  wait_for_ssm_online, look_ended, run_remote, staging_bucket_name, ensure_bucket, upload_file,
}
use browser_visit_logger.Cloud.Aws.Resolved.{choose_instance-site}
use browser_visit_logger.Cloud.Server.{ssm_target, stage_clients, run_and_surface, remote_only}

-- The keys of the TLS material and of the service account's key.
unfoldable pub is_secret : Text → Bool
unfolding after_prefix
is_secret key = starts_with key (codes "tls/") || starts_with key (codes "gdrive/")

-- The calls that look, run lines on the machine, and stage files, with secrets encrypted.
unfoldable pub is_allowed : Call → Bool
is_allowed (describe_instances filters) = true
is_allowed (describe_instance_information id) = true
is_allowed (send_command id lines) = true
is_allowed (get_command_invocation command_id id) = true
is_allowed get_caller_identity = true
is_allowed (head_bucket name) = true
is_allowed (create_bucket name location) = true
is_allowed (put_lifecycle name) = true
is_allowed (upload path bucket key encrypt) = encrypt || not (is_secret key)
is_allowed (slept n) = true
is_allowed _ = false

unfoldable pub all_allowed : List Call → Bool
all_allowed [] = true
all_allowed (c ∷ calls) = is_allowed c && all_allowed calls

abbrev pub InScope : List Call → Type 0
InScope h = all_allowed h ≡ true

InScope-call : (c : Call) (h : List Call) → is_allowed c ≡ true → InScope h → InScope (c ∷ h)
unfolding all_allowed
InScope-call c h a p = ground arith

module _ (aws : Aws) where
  InScope-resolve : (state : VmState) → Stable InScope (resolve_instance_id aws state)
  unfolding resolve_instance_id discover_instances is_allowed
  InScope-resolve state =
      Stable-bind InScope _ _
        (Stable-ask InScope (describe_instances managed) aws.instances
          (λ h p. InScope-call (describe_instances managed) h refl p))
        (λ found. record {
          at = λ s p.
              subst (λ (t : Site). InScope t.calls)
                (sym (choose_instance-site state.instance_id found s)) p;
        })

  module _ {A : Type 0} (interval deadline : ℕ) (attempt : Op (Option A))
      (sa : Stable InScope attempt) where
    InScope-after :
        (again : Op A)
        → Stable InScope again
        → (r : Outcome (Option A) × Site) → InScope r.1.calls
        → InScope (after_attempt aws interval deadline again r).1.calls
    InScope-after again sg (done (some a), s) p = p
    InScope-after again sg (done none, s) p = one (leb deadline (aws.clock s.calls)) refl
      where
        one :
            (b : Bool)
            → leb deadline (aws.clock s.calls) ≡ b
            → InScope (after_attempt aws interval deadline again (done none, s)).1.calls
        one true e = rw (e, after_attempt) p
        one false e = rw (e, after_attempt) (sg.at s p)
    InScope-after again sg (raised e, s) p = p

    InScope-poll : (fuel : ℕ) → Stable InScope (poll aws interval deadline attempt fuel)
    unfolding poll sleep is_allowed
    InScope-poll zero = record { at = λ s p. p }
    InScope-poll (suc fuel) = record {
      at = λ s p.
          InScope-after _
            (record {
              at = λ t q.
                  (InScope-poll fuel).at (record t { calls = slept interval ∷ t.calls })
                    (InScope-call (slept interval) t.calls refl q);
            })
            (attempt s) (sa.at s p);
    }

  InScope-online : (id : Text) → Stable InScope (wait_for_ssm_online aws id)
  unfolding wait_for_ssm_online look_online is_allowed
  InScope-online id = record {
    at = λ s p.
        (InScope-poll 5 _ (look_online aws id)
            (Stable-bind InScope _ _
              (Stable-ask InScope (describe_instance_information id) aws.ping_statuses
                (λ h q. InScope-call (describe_instance_information id) h refl q))
              (λ statuses. Stable-pure InScope _))
            37).at
          s p;
  }

  InScope-ended : (command_id id : Text) → Stable InScope (look_ended aws command_id id)
  unfolding look_ended is_allowed
  InScope-ended command_id id =
      Stable-try_else InScope _ _
        (Stable-bind InScope _ _
          (Stable-ask InScope (get_command_invocation command_id id) aws.invocation
            (λ h p. InScope-call (get_command_invocation command_id id) h refl p))
          (λ inv. Stable-pure InScope _))
        (λ e. Stable-if InScope _ _ _ (Stable-pure InScope none) (Stable-raise InScope e))

  InScope-run_remote : (id : Text) (lines : List Text) → Stable InScope (run_remote aws id lines)
  unfolding run_remote is_allowed
  InScope-run_remote id lines =
      Stable-bind InScope _ _
        (Stable-ask InScope (send_command id lines) aws.command_id
          (λ h p. InScope-call (send_command id lines) h refl p))
        (λ command_id. record {
          at = λ s p.
              (InScope-poll 3 _ (look_ended aws command_id id) (InScope-ended command_id id) 101).at
                s p;
        })

  pub InScope-upload :
      (path bucket key : Text) (encrypt : Bool)
      → (encrypt || not (is_secret key)) ≡ true
      → Stable InScope (upload_file aws path bucket key encrypt)
  unfolding upload_file is_allowed
  InScope-upload path bucket key encrypt a =
      Stable-ask InScope (upload path bucket key encrypt) aws.perform
        (λ h p. InScope-call (upload path bucket key encrypt) h a p)

  pub InScope-stage : (region : Option Text) → Stable InScope (stage_clients aws region)
  unfolding stage_clients staging_bucket_name ensure_bucket is_allowed
  InScope-stage region =
      Stable-bind InScope _ _
        (Stable-bind InScope _ _
          (Stable-ask InScope get_caller_identity aws.account
            (λ h p. InScope-call get_caller_identity h refl p))
          (λ a. Stable-pure InScope _))
        (λ bucket.
          Stable-bind InScope _ _
            (Stable-bind InScope _ _
              (Stable-try_else InScope _ _
                (Stable-ask InScope (head_bucket bucket) aws.perform
                  (λ h p. InScope-call (head_bucket bucket) h refl p))
                (λ e.
                  Stable-if InScope _ _ _
                    (Stable-ask InScope (create_bucket bucket _) aws.perform
                      (λ h p. InScope-call (create_bucket bucket _) h refl p))
                    (Stable-raise InScope e)))
              (λ _.
                Stable-ask InScope (put_lifecycle bucket) aws.perform
                  (λ h p. InScope-call (put_lifecycle bucket) h refl p)))
            (λ _. Stable-pure InScope bucket))

  pub InScope-target : (region : Option Text) → Stable InScope (ssm_target aws region)
  unfolding ssm_target
  InScope-target region = Stable-bind InScope _ _ (Stable-load_state InScope) (λ state.
      Stable-bind InScope _ _ (InScope-resolve state)
        (λ id. Stable-bind InScope _ _ (InScope-online id) (λ _. Stable-pure InScope _)))

  pub InScope-surface :
      (id : Text) (lines : List Text) → Stable InScope (run_and_surface aws id lines)
  unfolding run_and_surface
  InScope-surface id lines =
      Stable-bind InScope _ _ (InScope-run_remote id lines) (λ inv. Stable-pure InScope _)

  pub InScope-remote_only :
      (region : Option Text) (lines : List Text) → Stable InScope (remote_only aws region lines)
  unfolding remote_only
  InScope-remote_only region lines =
      Stable-bind InScope _ _ (InScope-target region) (λ target. InScope-surface target.1 lines)
