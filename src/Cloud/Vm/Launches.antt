-- ===== src/Cloud/Vm/Launches.antt =====
-- `create` launches an instance only where none is tagged, and one only.
use browser_visit_logger.Base.{
  ℕ, Text, Option, none, some, List, [], ◌∷◌, ◌≡◌, ◌≤◌, suc, ◌+◌, true, contains, arith, refl,
}
use browser_visit_logger.Cloud.Calls.{
  Aws, Site, Op, Instance, Launch, Call, VmState, Outcome, done, raised, Reply, answered, refused,
  ask, answer, pure, continue, ◌>>=◌, ◌>>◌, load_state, save_state, run_instances,
  describe_instances, describe_security_groups, create_security_group, authorize_ingress, get_role,
  create_role, attach_role_policy, put_role_policy, get_instance_profile, create_instance_profile,
  add_role_to_instance_profile, get_caller_identity, get_parameter,
}
use browser_visit_logger.Cloud.Calls.Rules.{
  Stable, Stable-pure, Stable-raise, Stable-ask, Stable-if, Stable-bind, Stable-try_else,
}
use browser_visit_logger.Cloud.Aws.{tags, managed, live_states, discover_instances, resolve_region}
use browser_visit_logger.Cloud.Aws.Resolved.{passes_all}
use browser_visit_logger.Base.{text_eq, nat_eq}
use browser_visit_logger.Cloud.Vm.{
  Creation, Arch, perform_or, resolve_ami, allow_each, group_or_new, first_group,
  ensure_security_group, ensure_iam, launch, create_new, keep_existing, create_with, cmd_create,
  or_ask, arch_name, or_text, default_type, client_token,
}

-- How many instances were asked for, at most.
unfoldable pub launches : List Call → ℕ
launches [] = 0
launches (run_instances l ∷ calls) = l.max_count + launches calls
launches (c ∷ calls) = launches calls

module _ (aws : Aws) (n : ℕ) where
  abbrev Launched : List Call → Type 0
  Launched h = launches h ≡ n

  perform_or-launches :
      (code : Text) (c : Call) (instead : Op (Unit {0}))
      → ((h : List Call) → launches h ≡ n → launches (c ∷ h) ≡ n)
      → Stable Launched instead
      → Stable Launched (perform_or aws code c instead)
  perform_or-launches code c instead keep si =
      Stable-try_else Launched _ _ (Stable-ask Launched c aws.perform keep)
        (λ e. Stable-if Launched _ _ _ si (Stable-raise Launched e))

  allow_each-launches :
      (group : Text) (cidrs : List Text) → Stable Launched (allow_each aws group cidrs)
  unfolding allow_each launches
  allow_each-launches group [] = Stable-pure Launched tt
  allow_each-launches group (cidr ∷ cidrs) =
      Stable-bind Launched _ _
        (perform_or-launches _ (authorize_ingress group cidr) _ (λ h p. p)
          (Stable-pure Launched tt))
        (λ _. allow_each-launches group cidrs)

  ensure_security_group-launches :
      (cidrs : List Text) → Stable Launched (ensure_security_group aws cidrs)
  unfolding ensure_security_group launches
  ensure_security_group-launches cidrs =
      Stable-bind Launched _ _
        (Stable-ask Launched describe_security_groups aws.security_groups (λ h p. p))
        (λ groups. Stable-bind Launched _ _ (found (first_group groups)) (λ group.
          Stable-bind Launched _ _ (allow_each-launches group cidrs)
            (λ _. Stable-pure Launched group)))
    where
      found : (o : Option Text) → Stable Launched (group_or_new aws o)
      found none = Stable-ask Launched create_security_group aws.new_group (λ h p. p)
      found (some group) = Stable-pure Launched group

  ensure_iam-launches :
      (account : Text) (region : Option Text) → Stable Launched (ensure_iam aws account region)
  unfolding ensure_iam launches
  ensure_iam-launches account region =
      Stable-bind Launched _ _
        (perform_or-launches _ get_role _ (λ h p. p)
          (Stable-ask Launched create_role aws.perform (λ h p. p)))
        (λ _.
          Stable-bind Launched _ _ (Stable-ask Launched attach_role_policy aws.perform (λ h p. p))
            (λ _.
              Stable-bind Launched _ _
                (Stable-ask Launched (put_role_policy _) aws.perform (λ h p. p))
                (λ _.
                  Stable-bind Launched _ _
                    (perform_or-launches _ get_instance_profile _ (λ h p. p)
                      (Stable-ask Launched create_instance_profile aws.perform (λ h p. p)))
                    (λ _.
                      Stable-bind Launched _ _
                        (perform_or-launches _ add_role_to_instance_profile _ (λ h p. p)
                          (Stable-pure Launched tt))
                        (λ _. Stable-pure Launched _)))))

  or_ask-launches :
      (ami : Option Text) (arch : Arch) → Stable Launched (or_ask ami (resolve_ami aws arch))
  unfolding resolve_ami launches
  or_ask-launches none arch = Stable-ask Launched (get_parameter _) aws.parameter (λ h p. p)
  or_ask-launches (some []) arch = Stable-ask Launched (get_parameter _) aws.parameter (λ h p. p)
  or_ask-launches (some (c ∷ t)) arch = Stable-pure Launched (c ∷ t)

-- The last call launched an instance and no fewer, with the tags by which the filters find it again
-- while it is live, and the state file names it.
pub record IsCreated (aws : Aws) (t : Site) : Type 0 where
  pub launch : Launch
  pub id : Text
  pub before : List Call
  pub last : t.calls ≡ run_instances launch ∷ before
  pub at_least_one : launch.min_count ≡ 1
  pub findable :
      (i : Instance)
      → i.tags ≡ launch.tags
      → contains live_states i.state_name ≡ true
      → passes_all i managed ≡ true
  pub answer : aws.launched t.calls ≡ answered id
  pub saved : t.state.instance_id ≡ some id

-- A run that launches one instance if it returns, and one at most if it raises.
abbrev pub LaunchesOne : Aws → ℕ → Outcome ℕ × Site → Type 0
LaunchesOne aws n (done code, t) = (code ≡ 0) × (launches t.calls ≡ 1 + n) × IsCreated aws t
LaunchesOne aws n (raised e, t) = launches t.calls ≤ suc n

record Launching (aws : Aws) (m : Op ℕ) : Type 0 where
  at : (s : Site) → LaunchesOne aws (launches s.calls) (m s)

-- Launching behind an operation that launches nothing.
Launching-after :
    {A : Type 0} (aws : Aws) (m : Op A) (k : A → Op ℕ)
    → ((n : ℕ) → Stable (λ h. launches h ≡ n) m)
    → ((a : A) → Launching aws (k a))
    → Launching aws (m >>= k)
Launching-after {A} aws m k sm lk = record {
  at = λ s. step s (m s) ((sm (launches s.calls)).at s refl);
}
  where
    step :
        (s : Site) (r : Outcome A × Site)
        → launches r.1.calls ≡ launches s.calls
        → LaunchesOne aws (launches s.calls) (continue k r)
    step s (done a, t) e = rw (← e) ((lk a).at t)
    step s (raised x, t) e = omega arith

found_again :
    (i : Instance)
    → i.tags ≡ tags
    → contains live_states i.state_name ≡ true
    → passes_all i managed ≡ true
unfolding text_eq nat_eq
found_again i same live = rw (same, live) refl

record_launch : Creation → Option Text → Text → Text → Text → VmState
record_launch args region group profile id = record {
  region = region;
  instance_id = some id;
  arch = some (arch_name args.arch);
  security_group_id = some group;
  iam_instance_profile = some profile;
}

launch-Launching :
    (aws : Aws) (args : Creation) (region : Option Text) (group profile image : Text)
    → Launching aws (
        launch aws args region group profile image >>= λ id.
        save_state (record_launch args region group profile id) >> pure 0)
unfolding launch ask save_state launches record_launch
launch-Launching aws args region group profile image = record {
  at = λ s. step s (aws.launched (run_instances (asked s) ∷ s.calls)) refl;
}
  where
    asked : Site → Launch
    asked s = record {
      region = region;
      min_count = 1;
      max_count = 1;
      image = image;
      instance_type = or_text args.instance_type (default_type args.arch);
      group = group;
      profile = profile;
      volume_size = args.volume_size;
      tags = tags;
      client_token = client_token aws region s.calls;
    }

    step :
        (s : Site) (r : Reply Text)
        → aws.launched (run_instances (asked s) ∷ s.calls) ≡ r
        → LaunchesOne aws (launches s.calls) (
            continue
              (λ id. save_state (record_launch args region group profile id) >> pure 0)
              (answer r (record s { calls = run_instances (asked s) ∷ s.calls })))
    step s (answered id) e = (
      refl,
      refl,
      record {
        launch = asked s;
        id = id;
        before = s.calls;
        last = refl;
        at_least_one = refl;
        findable = λ i same live. found_again i same live;
        answer = e;
        saved = refl;
      },
    )
    step s (refused code) e = omega arith

create_new-Launching :
    (aws : Aws) (args : Creation) (region : Option Text)
    → Launching aws (create_new aws args region)
unfolding create_new launches record_launch
create_new-Launching aws args region =
    Launching-after aws _ _
      (λ n. Stable-ask (Launched aws n) get_caller_identity aws.account (λ h p. p))
      (λ account.
        Launching-after aws _ _ (λ n. ensure_security_group-launches aws n args.allow_cidr)
          (λ group.
            Launching-after aws _ _ (λ n. ensure_iam-launches aws n account region)
              (λ profile.
                Launching-after aws _ _ (λ n. or_ask-launches aws n args.ami args.arch)
                  (λ image. launch-Launching aws args region group profile image))))

-- How `create` ends by what AWS answers to the question for live instances with the role tag.
abbrev pub Created : Aws → Site → Reply (List Instance) → Outcome ℕ × Site → Type 0
Created aws s (answered []) r = LaunchesOne aws (launches s.calls) r
Created aws s (answered (i ∷ [])) r =
    (r.0 ≡ done 0)
    × (r.1.calls ≡ describe_instances managed ∷ s.calls)
    × (r.1.state.instance_id ≡ some i.instance_id)
Created aws s (answered (i ∷ j ∷ found)) r =
    (r.0 ≡ done 1) × (r.1.calls ≡ describe_instances managed ∷ s.calls) × (r.1.state ≡ s.state)
Created aws s (refused code) r = r.1.calls ≡ describe_instances managed ∷ s.calls

module _ (aws : Aws) (args : Creation) where
  created :
      (s : Site) (r : Reply (List Instance))
      → Created aws s r (
          continue
            (create_with aws args (resolve_region aws args.region))
            (answer r (record s { calls = describe_instances managed ∷ s.calls })))
  unfolding keep_existing load_state save_state launches
  created s (answered []) =
      (create_new-Launching aws args (resolve_region aws args.region)).at
        (record s { calls = describe_instances managed ∷ s.calls })
  created s (answered (i ∷ [])) = (refl, refl, refl)
  created s (answered (i ∷ j ∷ found)) = (refl, refl, refl)
  created s (refused code) = refl

  -- Where AWS lists no instance for the filters of the role tag and the live states, `create` asks for
  -- one instance, no fewer and no more, as its last call if it returns, with tags that pass these
  -- filters while the instance is live and with its id in the state file, and for one at most if it
  -- raises. Where AWS lists one, it returns 0 and makes no other call, and the state file names that
  -- instance. Where AWS lists more, it returns 1 and changes nothing.
  pub cmd_create_lem :
      (s : Site)
      → Created aws s (aws.instances (describe_instances managed ∷ s.calls)) (cmd_create aws args s)
  unfolding cmd_create discover_instances ask
  cmd_create_lem s = created s (aws.instances (describe_instances managed ∷ s.calls))
