-- ===== src/Cloud/Server/Success/Steps.antt =====
-- What a remote command shows where the exit code is 0.
use browser_visit_logger.Base.{
  ℕ, Text, Bool, true, false, Option, none, some, List, ◌∷◌, ◌≡◌, nat_eq, text_eq, zero, suc, arith,
  refl, leb, contains, if◌then◌else◌,
}
use browser_visit_logger.Base.Strings.{codes}
use browser_visit_logger.Cloud.Calls.{
  Aws, Site, Op, Exn, Invocation, Outcome, done, raised, client_error, Reply, answered, refused,
  get_command_invocation, pure, raise, ◌>>=◌, continue, caught, try_else, ask, answer, slept,
  error_code,
}
use browser_visit_logger.Cloud.Calls.Rules.{Returned, Ensures, Ensures-last, Ensures-bind}
use browser_visit_logger.Cloud.Aws.{
  after_attempt, poll, sleep, look_ended, ended, is_missing, run_remote, terminal,
}
use browser_visit_logger.Cloud.Server.{surface, is_zero, run_and_surface, remote_only}

-- The last call showed an invocation that ended well.
pub record Succeeded (aws : Aws) (s : Site) : Type 0 where
  pub invocation : Invocation
  pub last : aws.invocation s.calls ≡ answered invocation
  pub status : invocation.status ≡ codes "Success"
  pub exit_code : invocation.exit_code ≡ some 0

abbrev pub Honest : Aws → ℕ → Site → Type 0
Honest aws code s = code ≡ 0 → Succeeded aws s

abbrev Last : Aws → Invocation → Site → Type 0
Last aws inv s = aws.invocation s.calls ≡ answered inv

-- An attempt that brings an invocation has just been shown it.
abbrev Brings : Aws → Option Invocation → Site → Type 0
Brings aws none s = Unit
Brings aws (some inv) s = Last aws inv s

is_zero_lem : (o : Option ℕ) → is_zero o ≡ true → o ≡ some 0
unfolding nat_eq
is_zero_lem none h = cc
is_zero_lem (some n) h = ground arith

surface_lem :
    (inv : Invocation) → surface inv ≡ 0 → (inv.status ≡ codes "Success") × (inv.exit_code ≡ some 0)
unfolding surface
surface_lem inv h = (ground arith, is_zero_lem inv.exit_code (ground arith))

module _ (aws : Aws) where
  Brings-answer :
      (s : Site) (r : Reply Invocation)
      → aws.invocation s.calls ≡ r
      → Returned (Brings aws) (
          caught
            (λ e. if is_missing (error_code e) then pure none else raise e)
            (continue (λ inv. pure (ended inv)) (answer r s)))
  unfolding text_eq
  Brings-answer s (answered inv) e = brought (contains terminal inv.status)
    where
      brought : (b : Bool) → Brings aws (if b then some inv else none) s
      brought true = e
      brought false = tt
  Brings-answer s (refused code) e = passed (is_missing code)
    where
      passed :
          (b : Bool)
          → Returned (Brings aws) ((if b then pure none else raise (client_error code)) s)
      passed true = tt
      passed false = tt

  Brings-look_ended : (command_id id : Text) → Ensures (look_ended aws command_id id) (Brings aws)
  unfolding look_ended try_else ask
  Brings-look_ended command_id id = record {
    at = λ s.
        Brings-answer (record s { calls = get_command_invocation command_id id ∷ s.calls })
          (aws.invocation (get_command_invocation command_id id ∷ s.calls)) refl;
  }

  Last-poll :
      (interval deadline : ℕ) (attempt : Op (Option Invocation))
      → Ensures attempt (Brings aws)
      → (fuel : ℕ) → Ensures (poll aws interval deadline attempt fuel) (Last aws)
  unfolding poll sleep
  Last-poll interval deadline attempt ea zero = record { at = λ s. tt }
  Last-poll interval deadline attempt ea (suc fuel) = record {
    at = λ s. step (attempt s) (ea.at s) (λ t.
        (Last-poll interval deadline attempt ea fuel).at
          (record t { calls = slept interval ∷ t.calls }));
  }
    where
      step :
          (r : Outcome (Option Invocation) × Site)
          → Returned (Brings aws) r
          → ((t : Site)
              → Returned (Last aws) (
                  poll aws interval deadline attempt fuel
                    (record t { calls = slept interval ∷ t.calls })))
          → Returned (Last aws) (
              after_attempt aws interval deadline
                (sleep aws interval >>= λ _. poll aws interval deadline attempt fuel)
                r)
      step (done (some inv), s) h k = h
      step (done none, s) h k = one (leb deadline (aws.clock s.calls)) refl
        where
          one :
              (b : Bool)
              → leb deadline (aws.clock s.calls) ≡ b
              → Returned (Last aws) (
                  after_attempt aws interval deadline
                    (sleep aws interval >>= λ _. poll aws interval deadline attempt fuel)
                    (done none, s))
          one true e = rw (e, after_attempt) tt
          one false e = rw (e, after_attempt) (k s)
      step (raised e, s) h k = tt

  Last-run_remote : (id : Text) (lines : List Text) → Ensures (run_remote aws id lines) (Last aws)
  unfolding run_remote
  Last-run_remote id lines = Ensures-last (Last aws) _ _ (λ command_id. record {
    at = λ s.
        (Last-poll 3 _ (look_ended aws command_id id) (Brings-look_ended command_id id) 101).at s;
  })

  pub Honest-surface :
      (id : Text) (lines : List Text) → Ensures (run_and_surface aws id lines) (Honest aws)
  unfolding run_and_surface
  Honest-surface id lines =
      Ensures-bind (Last aws) (Honest aws) _ _ (Last-run_remote id lines) (λ inv s last h. record {
        invocation = inv;
        last = last;
        status = (surface_lem inv h).0;
        exit_code = (surface_lem inv h).1;
      })

  pub Honest-remote_only :
      (region : Option Text) (lines : List Text)
      → Ensures (remote_only aws region lines) (Honest aws)
  unfolding remote_only
  Honest-remote_only region lines =
      Ensures-last (Honest aws) _ _ (λ target. Honest-surface target.1 lines)

  pub Honest-code : (n : ℕ) → Ensures (pure (suc n)) (Honest aws)
  Honest-code n = record { at = λ s h. absurd (ground arith) }

  pub Honest-raise : (e : Exn) → Ensures (raise {A = ℕ} e) (Honest aws)
  Honest-raise e = record { at = λ s. tt }
