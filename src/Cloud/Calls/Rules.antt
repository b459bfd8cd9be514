-- ===== src/Cloud/Calls/Rules.antt =====
-- Conditions on the calls that every run keeps, and conditions on how a run ends, with a rule for each
-- way to build an operation.
use browser_visit_logger.Base.{Bool, true, false, List, ◌∷◌, if◌then◌else◌}
use browser_visit_logger.Cloud.Calls.{
  Call, Exn, client_error, runtime_error, timeout_error, other_error, unfinished, Outcome, done,
  raised, Reply, answered, refused, Site, Op, pure, raise, continue, ◌>>=◌, answer, ask, caught,
  try_else, VmState, load_state, save_state,
}

-- `m` keeps `P` of the calls, whether it returns or raises.
pub record Stable {κ} {A : Type 0} (P : List Call → Type κ) (m : Op A) : Type κ where
  pub at : (s : Site) → P s.calls → P (m s).1.calls

module _ {κ} {A : Type 0} (P : List Call → Type κ) where
  pub Stable-pure : (a : A) → Stable P (pure a)
  Stable-pure a = record { at = λ s p. p }

  pub Stable-raise : (e : Exn) → Stable P (raise {A = A} e)
  Stable-raise e = record { at = λ s p. p }

  pub Stable-ask :
      (c : Call) (reply : List Call → Reply A)
      → ((h : List Call) → P h → P (c ∷ h))
      → Stable P (ask c reply)
  unfolding ask
  Stable-ask c reply keep = record { at = λ s p. step s (keep s.calls p) (reply (c ∷ s.calls)) }
    where
      step :
          (s : Site)
          → P (c ∷ s.calls)
          → (r : Reply A) → P (answer r (record s { calls = c ∷ s.calls })).1.calls
      step s p (answered a) = p
      step s p (refused code) = p

  pub Stable-if : (b : Bool) (m n : Op A) → Stable P m → Stable P n → Stable P (if b then m else n)
  Stable-if true m n hm hn = hm
  Stable-if false m n hm hn = hn

  pub Stable-try_else :
      (m : Op A) (h : Exn → Op A)
      → Stable P m
      → ((e : Exn) → Stable P (h e))
      → Stable P (try_else m h)
  unfolding try_else
  Stable-try_else m h sm sh = record { at = λ s p. step (m s) (sm.at s p) }
    where
      step : (r : Outcome A × Site) → P r.1.calls → P (caught h r).1.calls
      step (done a, s) p = p
      step (raised unfinished, s) p = p
      step (raised (client_error code), s) p = (sh (client_error code)).at s p
      step (raised runtime_error, s) p = (sh runtime_error).at s p
      step (raised timeout_error, s) p = (sh timeout_error).at s p
      step (raised other_error, s) p = (sh other_error).at s p

module _ {κ} {A B : Type 0} (P : List Call → Type κ) where
  pub Stable-bind :
      (m : Op A) (k : A → Op B) → Stable P m → ((a : A) → Stable P (k a)) → Stable P (m >>= k)
  Stable-bind m k sm sk = record { at = λ s p. step (m s) (sm.at s p) }
    where
      step : (r : Outcome A × Site) → P r.1.calls → P (continue k r).1.calls
      step (done a, s) p = (sk a).at s p
      step (raised e, s) p = p

module _ {κ} (P : List Call → Type κ) where
  pub Stable-load_state : Stable P load_state
  unfolding load_state
  Stable-load_state = record { at = λ s p. p }

  pub Stable-save_state : (state : VmState) → Stable P (save_state state)
  unfolding save_state
  Stable-save_state state = record { at = λ s p. p }

-- What holds of the value that a run returns and of the site that it leaves.
abbrev pub Returned {κ} : {A : Type 0} → (A → Site → Type κ) → Outcome A × Site → Type κ
Returned post (done a, s) = post a s
Returned post (raised e, s) = Unit

pub record Ensures {κ} {A : Type 0} (m : Op A) (post : A → Site → Type κ) : Type κ where
  pub at : (s : Site) → Returned post (m s)

module _ {κ} {A B : Type 0} (post : B → Site → Type κ) where
  -- The end of a run is the end of its last part.
  pub Ensures-last :
      (m : Op A) (k : A → Op B) → ((a : A) → Ensures (k a) post) → Ensures (m >>= k) post
  Ensures-last m k ek = record { at = λ s. step (m s) }
    where
      step : (r : Outcome A × Site) → Returned post (continue k r)
      step (done a, s) = (ek a).at s
      step (raised e, s) = tt

module _ {κ μ} {A B : Type 0} (mid : A → Site → Type μ) (post : B → Site → Type κ) where
  pub Ensures-bind :
      (m : Op A) (k : A → Op B)
      → Ensures m mid
      → ((a : A) (s : Site) → mid a s → Returned post (k a s))
      → Ensures (m >>= k) post
  Ensures-bind m k em ek = record { at = λ s. step (m s) (em.at s) }
    where
      step : (r : Outcome A × Site) → Returned mid r → Returned post (continue k r)
      step (done a, s) h = ek a s h
      step (raised e, s) h = tt

module _ {κ} {A : Type 0} (post : A → Site → Type κ) where
  pub Ensures-if :
      (b : Bool) (m n : Op A) → Ensures m post → Ensures n post → Ensures (if b then m else n) post
  Ensures-if true m n hm hn = hm
  Ensures-if false m n hm hn = hn
