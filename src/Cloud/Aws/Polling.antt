-- ===== src/Cloud/Aws/Polling.antt =====
-- The two loops that wait for the machine end.
use browser_visit_logger.Base.{
  ℕ, Text, false, Option, none, some, List, [], ◌∷◌, ◌+◌, ◌*◌, ◌≤◌, zero, suc, ◌≡◌, text_eq, leb,
  arith, Bool-cases, inl, inr,
}
use browser_visit_logger.Cloud.Calls.{
  Aws, Site, Op, Call, client_error, runtime_error, timeout_error, other_error, unfinished, slept,
  Outcome, done, raised, Reply, answered, refused, ask, answer, continue, try_else, send_command,
  get_command_invocation, describe_instance_information,
}
use browser_visit_logger.Cloud.Aws.{
  poll, after_attempt, sleep, by_deadline, look_online, wait_for_ssm_online, look_ended, run_remote,
}

-- How many pauses were made.
unfoldable pub pauses : List Call → ℕ
pauses [] = 0
pauses (slept n ∷ calls) = suc (pauses calls)
pauses (c ∷ calls) = pauses calls

-- `time.monotonic` does not go back, and `time.sleep` pauses for the time that it is given, at least.
pub record Ticks (aws : Aws) : Type 0 where
  pub later : (c : Call) (h : List Call) → aws.clock h ≤ aws.clock (c ∷ h)
  pub sleeps : (n : ℕ) (h : List Call) → aws.clock h + n ≤ aws.clock (slept n ∷ h)

-- A run that ends with a value, with an exception of a call, or with a timeout after the deadline.
abbrev pub Ended : {A : Type 0} → Aws → ℕ → Outcome A × Site → Type 0
Ended aws deadline (done a, s) = Unit
Ended aws deadline (raised (client_error code), s) = Unit
Ended aws deadline (raised timeout_error, s) = deadline ≤ aws.clock s.calls
Ended aws deadline (raised runtime_error, s) = ⊥
Ended aws deadline (raised other_error, s) = ⊥
Ended aws deadline (raised unfinished, s) = ⊥

-- An attempt ends with a value or with an exception of a call, and makes no pause.
abbrev pub Attempted : {A : Type 0} → Outcome A → Type 0
Attempted (done a) = Unit
Attempted (raised (client_error code)) = Unit
Attempted (raised timeout_error) = ⊥
Attempted (raised runtime_error) = ⊥
Attempted (raised other_error) = ⊥
Attempted (raised unfinished) = ⊥

pub record IsAttempt {A : Type 0} (aws : Aws) (m : Op A) : Type 0 where
  pub attempted : (s : Site) → Attempted (m s).0
  pub later : (s : Site) → aws.clock s.calls ≤ aws.clock (m s).1.calls
  pub unpaused : (s : Site) → pauses (m s).1.calls ≡ pauses s.calls

module _ {A : Type 0} (aws : Aws) (ticks : Ticks aws) (interval deadline : ℕ) (m : Op (Option A))
    (is_attempt : IsAttempt aws m) where
  abbrev Fits : ℕ → Site → Type 0
  Fits fuel s = deadline ≤ aws.clock s.calls + fuel * interval

  -- A run of the loop that makes at most `n` pauses.
  abbrev pub EndsWithin : ℕ → Site → Outcome A × Site → Type 0
  EndsWithin n s r = Ended aws deadline r × (pauses r.1.calls ≤ pauses s.calls + n)

  -- What is behind an attempt, given what is behind a pause.
  attempt_ends :
      (fuel : ℕ) (s : Site) (again : Op A) (r : Outcome (Option A) × Site)
      → Attempted r.0
      → aws.clock s.calls ≤ aws.clock r.1.calls
      → pauses r.1.calls ≡ pauses s.calls
      → ((t : Site)
          → aws.clock s.calls ≤ aws.clock t.calls
          → pauses t.calls ≡ pauses s.calls
          → leb deadline (aws.clock t.calls) ≡ false
          → EndsWithin fuel s (again t))
      → EndsWithin fuel s (after_attempt aws interval deadline again r)
  attempt_ends fuel s again (done (some a), t) h l p k = (tt, omega arith)
  attempt_ends fuel s again (done none, t) h l p k =
      elim (Bool-cases (leb deadline (aws.clock t.calls))) [
        | inl past ↦ rw (past, after_attempt) (ground arith, omega arith)
        | inr before ↦ rw (before, after_attempt) (k t l p before)
      ]
  attempt_ends fuel s again (raised (client_error code), t) h l p k = (tt, omega arith)
  attempt_ends fuel s again (raised timeout_error, t) h l p k = absurd h
  attempt_ends fuel s again (raised runtime_error, t) h l p k = absurd h
  attempt_ends fuel s again (raised other_error, t) h l p k = absurd h
  attempt_ends fuel s again (raised unfinished, t) h l p k = absurd h

  pub poll_ends :
      (fuel : ℕ) (s : Site)
      → Fits fuel s
      → EndsWithin fuel s (poll aws interval deadline m (suc fuel) s)
  unfolding poll sleep pauses
  poll_ends zero s fits =
      attempt_ends zero s _ (m s) (is_attempt.attempted s) (is_attempt.later s)
        (is_attempt.unpaused s) (λ t l p before. absurd (ground arith))
  poll_ends (suc fuel) s fits =
      attempt_ends (suc fuel) s _ (m s) (is_attempt.attempted s) (is_attempt.later s)
        (is_attempt.unpaused s)
        (λ t l p before.
          let rest =
            poll_ends fuel (record t { calls = slept interval ∷ t.calls })
              (omega (arith, ticks.sleeps interval t.calls)) in
          (rest.0, omega (arith, rest.1)))

module _ (aws : Aws) (ticks : Ticks aws) where
  IsAttempt-look_online : (id : Text) → IsAttempt aws (look_online aws id)
  unfolding look_online ask pauses
  IsAttempt-look_online id = record {
    attempted = λ s. ground arith;
    later = λ s. ground (arith, ticks.later (describe_instance_information id) s.calls);
    unpaused = λ s. ground arith;
  }

  IsAttempt-look_ended : (command_id id : Text) → IsAttempt aws (look_ended aws command_id id)
  unfolding look_ended ask try_else pauses
  IsAttempt-look_ended command_id id = record {
    attempted = λ s. ground arith;
    later = λ s. ground (arith, ticks.later (get_command_invocation command_id id) s.calls);
    unpaused = λ s. ground arith;
  }

  answered_ends :
      (id : Text) (lines : List Text) (s : Site) (r : Reply Text)
      → let t : Site = record s { calls = send_command id lines ∷ s.calls } in
        let deadline = aws.clock t.calls + 300 in
        Ended aws deadline (
          continue
            (λ command_id. by_deadline aws 300 λ d. poll aws 3 d (look_ended aws command_id id) 101)
            (answer r t))
        × (pauses
              (continue
                (λ command_id.
                  by_deadline aws 300 λ d. poll aws 3 d (look_ended aws command_id id) 101)
                (answer r t)).1.calls
            ≤ pauses s.calls + 100)
  unfolding pauses
  answered_ends id lines s (refused code) = (tt, omega arith)
  answered_ends id lines s (answered command_id) =
      poll_ends aws ticks 3 (aws.clock (send_command id lines ∷ s.calls) + 300)
        (look_ended aws command_id id) (IsAttempt-look_ended command_id id) 100
        (record s { calls = send_command id lines ∷ s.calls }) (omega arith)

  -- Where the clock does not go back and a pause lasts as long as it is asked to, waiting for the
  -- agent and waiting for a remote command both end, with a value, with an exception of a call, or
  -- with a timeout that is raised when the clock has reached the deadline, and after 36 and 100 pauses
  -- at most.
  pub waiting_ends :
      (id : Text) (lines : List Text) (s : Site)
      → Ended aws (aws.clock s.calls + 180) (wait_for_ssm_online aws id s)
        × (pauses (wait_for_ssm_online aws id s).1.calls ≤ pauses s.calls + 36)
        × Ended aws (aws.clock (send_command id lines ∷ s.calls) + 300) (run_remote aws id lines s)
        × (pauses (run_remote aws id lines s).1.calls ≤ pauses s.calls + 100)
  unfolding wait_for_ssm_online run_remote ask
  waiting_ends id lines s =
      let online =
        poll_ends aws ticks 5 (aws.clock s.calls + 180) (look_online aws id)
          (IsAttempt-look_online id) 36 s (omega arith) in
      let ran = answered_ends id lines s (aws.command_id (send_command id lines ∷ s.calls)) in
      (online.0, online.1, ran.0, ran.1)
