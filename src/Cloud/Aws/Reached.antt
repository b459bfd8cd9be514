-- ===== src/Cloud/Aws/Reached.antt =====
-- The two loops that wait for the machine reach what they wait for, where it comes in time.
use browser_visit_logger.Base.{
  ℕ, Text, true, Option, none, some, List, ◌∷◌, ◌+◌, ◌*◌, ◌≤◌, ◌<◌, zero, suc, ◌≡◌, text_eq, leb,
  arith, refl, contains, Bool-cases, inl, inr, if◌then◌else◌,
}
use browser_visit_logger.Cloud.Calls.{
  Aws, Site, Op, Call, slept, Outcome, done, raised, Reply, answered, refused, ask, answer,
  continue, caught, error_code, pure, raise, try_else, send_command, get_command_invocation,
  describe_instance_information, Invocation,
}
use browser_visit_logger.Cloud.Aws.{
  poll, after_attempt, sleep, look_online, wait_for_ssm_online, look_ended, run_remote, is_online,
  is_missing, terminal, online_now, ended,
}
use browser_visit_logger.Cloud.Aws.Polling.{Ticks}

-- What a run returns; it does not raise.
abbrev Brings : {A : Type 0} → (A → Type 0) → Outcome A → Type 0
Brings Q (done a) = Q a
Brings Q (raised e) = ⊥

-- An attempt brings what is waited for, or finds it too early.
abbrev Finds : {A : Type 0} → (A → Type 0) → Aws → ℕ → ℕ → Outcome (Option A) × Site → Type 0
Finds Q aws time from (done (some a), t) = Q a
Finds Q aws time from (done none, t) = (aws.clock t.calls < time) × (from ≤ aws.clock t.calls)
Finds Q aws time from (raised e, t) = ⊥

module _ {A : Type 0} (Q : A → Type 0) (aws : Aws) (ticks : Ticks aws) (interval deadline time : ℕ)
    (in_time : time ≤ deadline) (m : Op (Option A))
    (attempt : (s : Site) → Finds Q aws time (aws.clock s.calls) (m s)) where
  after_Finds :
      (from : ℕ) (again : Op A) (r : Outcome (Option A) × Site)
      → Finds Q aws time from r
      → ((t : Site)
          → aws.clock t.calls < deadline
          → from ≤ aws.clock t.calls
          → Brings Q (again t).0)
      → Brings Q (after_attempt aws interval deadline again r).0
  after_Finds from again (done (some a), t) h k = h
  after_Finds from again (done none, t) (early, later) k =
      elim (Bool-cases (leb deadline (aws.clock t.calls))) [
        | inl past ↦ absurd (ground arith)
        | inr before ↦ rw (before, after_attempt) (k t (omega arith) later)
      ]
  after_Finds from again (raised e, t) h k = h

  pub poll-Brings :
      (fuel : ℕ) (s : Site)
      → deadline ≤ aws.clock s.calls + fuel * interval
      → Brings Q (poll aws interval deadline m (suc fuel) s).0
  unfolding poll sleep
  poll-Brings zero s fits =
      after_Finds (aws.clock s.calls) _ (m s) (attempt s) (λ t before later. absurd (omega arith))
  poll-Brings (suc fuel) s fits =
      after_Finds (aws.clock s.calls) _ (m s) (attempt s) (λ t before later.
        poll-Brings fuel (record t { calls = slept interval ∷ t.calls })
          (omega (arith, ticks.sleeps interval t.calls)))

-- The answers about the agent: none is refused, and from `time` on the agent is online.
abbrev pub Reported : ℕ → ℕ → Reply (List Text) → Type 0
Reported time now (answered statuses) = time ≤ now → is_online statuses ≡ true
Reported time now (refused code) = ⊥

-- The answers about a command: it may be missing before `time`, and is at its end from then on.
abbrev pub Settled : ℕ → ℕ → Reply Invocation → Type 0
Settled time now (answered inv) = time ≤ now → contains terminal inv.status ≡ true
Settled time now (refused code) = (is_missing code ≡ true) × (now < time)

module _ (aws : Aws) (ticks : Ticks aws) (id : Text) (time : ℕ) where
  look_online-Finds :
      ((h : List Call)
        → Reported time
            (aws.clock (describe_instance_information id ∷ h))
            (aws.ping_statuses (describe_instance_information id ∷ h)))
      → (s : Site) → Finds (λ _. Unit {0}) aws time (aws.clock s.calls) (look_online aws id s)
  unfolding look_online ask
  look_online-Finds reports s =
      one (aws.ping_statuses (describe_instance_information id ∷ s.calls)) (reports s.calls)
    where
      t : Site
      t = record s { calls = describe_instance_information id ∷ s.calls }

      one :
          (r : Reply (List Text))
          → Reported time (aws.clock t.calls) r
          → Finds
              (λ _. Unit {0})
              aws
              time
              (aws.clock s.calls)
              (continue (λ statuses v. (done (online_now statuses), v)) (answer r t))
      one (answered statuses) h = elim (Bool-cases (is_online statuses)) [
        | inl online ↦ rw (online, online_now) tt
        | inr offline ↦
            rw (offline, online_now)
              (ground arith, ticks.later (describe_instance_information id) s.calls)
      ]
      one (refused code) h = h

  -- Where the clock does not go back and a pause lasts as long as it is asked to, the agent is online
  -- from a time before the deadline on, and no question is refused, waiting for it returns.
  wait_for_ssm_online_returns :
      (s : Site)
      → time ≤ aws.clock s.calls + 180
      → ((h : List Call)
          → Reported time
              (aws.clock (describe_instance_information id ∷ h))
              (aws.ping_statuses (describe_instance_information id ∷ h)))
      → (wait_for_ssm_online aws id s).0 ≡ done tt
  unfolding wait_for_ssm_online
  wait_for_ssm_online_returns s in_time reports = one _ (
      poll-Brings (λ _. Unit {0}) aws ticks 5 (aws.clock s.calls + 180) time in_time
        (look_online aws id) (look_online-Finds reports) 36 s (omega arith))
    where
      one : (o : Outcome (Unit {0})) → Brings (λ _. Unit {0}) o → o ≡ done tt
      one (done tt) h = refl
      one (raised e) h = absurd h

  module _ (command_id : Text)
      (settles : (h : List Call)
        → Settled time
            (aws.clock (get_command_invocation command_id id ∷ h))
            (aws.invocation (get_command_invocation command_id id ∷ h))) where
    abbrev AtEnd : Invocation → Type 0
    AtEnd inv = contains terminal inv.status ≡ true

    look_ended-Finds :
        (s : Site) → Finds AtEnd aws time (aws.clock s.calls) (look_ended aws command_id id s)
    unfolding look_ended ask try_else ended
    look_ended-Finds s =
        one (aws.invocation (get_command_invocation command_id id ∷ s.calls)) (settles s.calls)
      where
        t : Site
        t = record s { calls = get_command_invocation command_id id ∷ s.calls }

        one :
            (r : Reply Invocation)
            → Settled time (aws.clock t.calls) r
            → Finds AtEnd aws time (aws.clock s.calls) (
                caught
                  (λ e. if is_missing (error_code e) then pure none else raise e)
                  (continue (λ inv v. (done (ended inv), v)) (answer r t)))
        one (answered inv) h = elim (Bool-cases (contains terminal inv.status)) [
          | inl over ↦ rw (over, ended) over
          | inr running ↦
              rw (running, ended)
                (ground arith, ticks.later (get_command_invocation command_id id) s.calls)
        ]
        one (refused code) (missing, early) =
            rw missing (early, ticks.later (get_command_invocation command_id id) s.calls)

    -- Where the clock does not go back and a pause lasts as long as it is asked to, a command that
    -- was sent is at its end from a time before the deadline on, and no question about it is refused
    -- but, before that time, for a command that is not registered yet, running it returns its
    -- invocation at the end.
    pub run_remote_returns :
        (lines : List Text) (s : Site)
        → aws.command_id (send_command id lines ∷ s.calls) ≡ answered command_id
        → time ≤ aws.clock (send_command id lines ∷ s.calls) + 300
        → (inv : Invocation) × ((run_remote aws id lines s).0 ≡ done inv)
          × (contains terminal inv.status ≡ true)
    unfolding run_remote ask
    run_remote_returns lines s sent in_time = rw sent (
        one _ (
          poll-Brings AtEnd aws ticks 3 (aws.clock (send_command id lines ∷ s.calls) + 300) time
            in_time (look_ended aws command_id id) look_ended-Finds 100
            (record s { calls = send_command id lines ∷ s.calls }) (omega arith)))
      where
        one :
            (o : Outcome Invocation)
            → Brings AtEnd o
            → (inv : Invocation) × (o ≡ done inv) × (contains terminal inv.status ≡ true)
        one (done inv) h = (inv, refl, h)
        one (raised e) h = absurd h
