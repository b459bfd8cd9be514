-- ===== src/Snapshots/Effects/Rules.antt =====
-- What an operation leaves alone and which exceptions it can raise, with one rule for each way to
-- build an operation.
use browser_visit_logger.Base.{
  ◌≡◌, refl, ◌∙◌, Bool, true, false, arith, if◌then◌else◌, ap, sym, Option, ℕ, Text, some, none,
}
use browser_visit_logger.Snapshots.Effects.{
  Result, ok, err, os_error, sql_error, value_error, ◌>>=◌, pure, Io, Env, World, continue, commit,
  handle_sql, handle, Exn, sql_write, os_read, os_write, sql_read, os_outcome,
}
use browser_visit_logger.Database.{Db}
use browser_visit_logger.Files.{Files}
use mathlib.Core.Path.{subst}

-- `m` keeps the view `f` of the world, whether it returns or raises.
pub record Keeps {ℓ κ} {A : Type ℓ} {B : Type κ} (f : World → B) (m : Io A) : Type κ where
  pub at : (w : World) → f (m w).1 ≡ f w

-- The exceptions that the program expects: not a `ValueError`.
abbrev pub Expected {ℓ} : {A : Type ℓ} → Result A → Type 0
Expected (ok a) = Unit
Expected (err (os_error errno text)) = Unit
Expected (err (sql_error e)) = Unit
Expected (err (value_error text)) = ⊥

pub record Behaves {ℓ} {A : Type ℓ} (m : Io A) : Type 0 where
  pub at : (w : World) → Expected (m w).0

module _ {ℓ κ μ} {A : Type ℓ} {B : Type κ} {C : Type μ} (f : World → B) where
  pub Keeps-bind :
      (m : Io A) (k : A → Io C) → Keeps f m → ((a : A) → Keeps f (k a)) → Keeps f (m >>= k)
  Keeps-bind m k km kk = record { at = λ w. step w (m w) refl }
    where
      step : (w : World) (r : Result A × World) → m w ≡ r → f (continue k r).1 ≡ f w
      step w (ok a, v) e = (kk a).at v ∙ ap (λ (p : Result A × World). f p.1) (sym e) ∙ km.at w
      step w (err x, v) e = ap (λ (p : Result A × World). f p.1) (sym e) ∙ km.at w

pub Behaves-pure {ℓ} : {A : Type ℓ} (a : A) → Behaves (pure a)
Behaves-pure a = record { at = λ w. tt }

module _ {ℓ κ} {A : Type ℓ} {C : Type κ} where
  pub Behaves-bind :
      (m : Io A) (k : A → Io C) → Behaves m → ((a : A) → Behaves (k a)) → Behaves (m >>= k)
  Behaves-bind m k bm bk = record { at = λ w. step (m w) (bm.at w) }
    where
      step : (r : Result A × World) → Expected r.0 → Expected (continue k r).0
      step (ok a, v) h = (bk a).at v
      step (err (os_error errno text), v) h = tt
      step (err (sql_error e), v) h = tt
      step (err (value_error text), v) h = h

module _ {ℓ} {A : Type ℓ} where
  pub Behaves-if : (b : Bool) (m n : Io A) → Behaves m → Behaves n → Behaves (if b then m else n)
  Behaves-if true m n hm hn = hm
  Behaves-if false m n hm hn = hn

-- A handler of `sqlite3.Error` that does nothing.
pub Keeps-handle_sql {κ} :
    {B : Type κ} (f : World → B) (m : Io (Unit {0}))
    → Keeps f m
    → Keeps f (λ w. handle_sql (λ _. pure tt) (m w))
Keeps-handle_sql f m km = record { at = λ w. step (m w) ∙ km.at w }
  where
    step : (r : Result (Unit {0}) × World) → f (handle_sql (λ _. pure tt) r).1 ≡ f r.1
    step (ok a, v) = refl
    step (err (os_error errno text), v) = refl
    step (err (sql_error e), v) = refl
    step (err (value_error text), v) = refl

pub Behaves-handle_sql :
    (m : Io (Unit {0})) → Behaves m → Behaves (λ w. handle_sql (λ _. pure tt) (m w))
Behaves-handle_sql m bm = record { at = λ w. step (m w) (bm.at w) }
  where
    step : (r : Result (Unit {0}) × World) → Expected r.0 → Expected (handle_sql (λ _. pure tt) r).0
    step (ok a, v) h = tt
    step (err (os_error errno text), v) h = tt
    step (err (sql_error e), v) h = tt
    step (err (value_error text), v) h = h

pub Behaves-handle :
    (h : Exn → Io (Unit {0})) (m : Io (Unit {0}))
    → ((e : Exn) → Behaves (h e))
    → Behaves m
    → Behaves (λ w. handle h (m w))
Behaves-handle h m bh bm = record { at = λ w. step (m w) (bm.at w) }
  where
    step : (r : Result (Unit {0}) × World) → Expected r.0 → Expected (handle h r).0
    step (ok a, v) e = tt
    step (err (os_error errno text), v) e = (bh _).at v
    step (err (sql_error x), v) e = (bh _).at v
    step (err (value_error text), v) e = e

module _ (env : Env) where
  pub Behaves-os_read {ℓ} : {A : Type ℓ} (g : Files → A) → Behaves (os_read env g)
  unfolding os_read
  Behaves-os_read g = record { at = λ w. ground arith }

  pub Behaves-os_write : (g : Files → Files) → Behaves (os_write env g)
  unfolding os_write
  Behaves-os_write g = record { at = λ w. ground arith }

  pub Behaves-sql_read {ℓ} : {A : Type ℓ} (g : Db → A) → Behaves (sql_read env g)
  unfolding sql_read
  Behaves-sql_read g = record { at = λ w. ground arith }

  pub Behaves-sql_write : (g : Db → Db) → Behaves (sql_write env g)
  unfolding sql_write
  Behaves-sql_write g = record { at = λ w. ground arith }

  pub Behaves-commit : Behaves (commit env)
  unfolding commit
  Behaves-commit = record { at = λ w. ground arith }

  -- Reads keep the files and the database.
  pub fs-os_read {ℓ} : {A : Type ℓ} (g : Files → A) → Keeps (λ w. w.fs) (os_read env g)
  unfolding os_read
  fs-os_read g = record { at = λ w. ground arith }

  pub fs-sql_read {ℓ} : {A : Type ℓ} (g : Db → A) → Keeps (λ w. w.fs) (sql_read env g)
  unfolding sql_read
  fs-sql_read g = record { at = λ w. ground arith }

  pub fs-sql_write : (g : Db → Db) → Keeps (λ w. w.fs) (sql_write env g)
  unfolding sql_write
  fs-sql_write g = record { at = λ w. ground arith }

  pub fs-commit : Keeps (λ w. w.fs) (commit env)
  unfolding commit
  fs-commit = record { at = λ w. ground arith }

-- What holds of a result and of the world it is returned in; nothing is said of an exception.
abbrev pub Returned {ℓ μ} : {A : Type ℓ} → (A → World → Type μ) → Result A × World → Type μ
Returned post (ok a, v) = post a v
Returned post (err x, v) = Unit

-- A run of `m` from a world with `pre` that returns ends in one with `post`.
pub record Ensures {ℓ κ μ} {A : Type ℓ} (pre : World → Type κ) (m : Io A)
    (post : A → World → Type μ) : Type (κ ⊔ μ) where
  pub at : (w : World) → pre w → Returned post (m w)

module _ {ℓ κ μ ν ο} {A : Type ℓ} {B : Type κ} (pre : World → Type μ) (mid : A → World → Type ν)
    (post : B → World → Type ο) where
  pub Ensures-bind :
      (m : Io A) (k : A → Io B)
      → Ensures pre m mid
      → ((a : A) → Ensures (mid a) (k a) post)
      → Ensures pre (m >>= k) post
  Ensures-bind m k em ek = record { at = λ w p. step (m w) (em.at w p) }
    where
      step : (r : Result A × World) → Returned mid r → Returned post (continue k r)
      step (ok a, u) h = (ek a).at u h
      step (err x, u) h = tt

-- A write that succeeds has changed the files.
pub Ensures-os_write {κ μ} :
    (env : Env) (P : World → Type κ) (Q : Files → Type μ) (g : Files → Files)
    → ((w : World) → P w → Q (g w.fs))
    → Ensures P (os_write env g) (λ _ v. Q v.fs)
unfolding os_write
Ensures-os_write env P Q g change = record { at = λ w p. step w p (env.os_fault w.tick) }
  where
    step :
        (w : World)
        → P w
        → (f : Option (ℕ × Text))
        → Returned (λ (_ : Unit {0}) v. Q v.fs) (os_outcome {0} env tt (g w.fs) w f)
    step w p none = change w p
    step w p (some x) = tt

-- Whatever is asked of the end may be asked from nothing.
pub Ensures-any {ℓ κ} : {A : Type ℓ} (P : World → Type κ) (m : Io A) → Ensures P m (λ _ _. Unit {0})
Ensures-any {A} P m = record { at = λ w p. step (m w) }
  where
    step : (r : Result A × World) → Returned (λ _ _. Unit {0}) r
    step (ok a, v) = tt
    step (err x, v) = tt

-- A condition on the world that every run keeps, whether it returns or raises.
pub record Stable {ℓ κ} {A : Type ℓ} (P : World → Type κ) (m : Io A) : Type κ where
  pub at : (w : World) → P w → P (m w).1

pub Stable-pure {ℓ κ} : {A : Type ℓ} (P : World → Type κ) (a : A) → Stable P (pure a)
Stable-pure P a = record { at = λ w p. p }

module _ {ℓ κ μ} {A : Type ℓ} {B : Type κ} (P : World → Type μ) where
  pub Stable-bind :
      (m : Io A) (k : A → Io B) → Stable P m → ((a : A) → Stable P (k a)) → Stable P (m >>= k)
  Stable-bind m k sm sk = record { at = λ w p. step (m w) (sm.at w p) }
    where
      step : (r : Result A × World) → P r.1 → P (continue k r).1
      step (ok a, v) h = (sk a).at v h
      step (err x, v) h = h

-- What only the files decide is kept where the files are.
pub Stable-fs {ℓ κ} :
    {A : Type ℓ} (Q : Files → Type κ) (m : Io A) → Keeps (λ w. w.fs) m → Stable (λ w. Q w.fs) m
Stable-fs Q m k = record { at = λ w q. subst Q (sym (k.at w)) q }

pub Stable-os_write {κ} :
    (env : Env) (Q : Files → Type κ) (g : Files → Files)
    → ((fs : Files) → Q fs → Q (g fs))
    → Stable (λ w. Q w.fs) (os_write env g)
unfolding os_write
Stable-os_write env Q g keep = record { at = λ w q. step w q (env.os_fault w.tick) }
  where
    step :
        (w : World) → Q w.fs → (f : Option (ℕ × Text)) → Q (os_outcome {0} env tt (g w.fs) w f).1.fs
    step w q none = keep w.fs q
    step w q (some x) = q

-- What holds where a run returns, and what where it raises.
abbrev pub Ends {ℓ μ} :
    {A : Type ℓ} → (A → World → Type μ) → (World → Type μ) → Result A × World → Type μ
Ends post safe (ok a, v) = post a v
Ends post safe (err x, v) = safe v

pub record Covers {ℓ κ μ} {A : Type ℓ} (pre : World → Type κ) (m : Io A) (post : A → World → Type μ)
    (safe : World → Type μ) : Type (κ ⊔ μ) where
  pub at : (w : World) → pre w → Ends post safe (m w)

module _ {ℓ κ μ ν} {A : Type ℓ} {B : Type κ} (pre : World → Type μ) (mid : A → World → Type ν)
    (post : B → World → Type ν) (safe : World → Type ν) where
  pub Covers-bind :
      (m : Io A) (k : A → Io B)
      → Covers pre m mid safe
      → ((a : A) → Covers (mid a) (k a) post safe)
      → Covers pre (m >>= k) post safe
  Covers-bind m k cm ck = record { at = λ w p. step (m w) (cm.at w p) }
    where
      step : (r : Result A × World) → Ends mid safe r → Ends post safe (continue k r)
      step (ok a, u) h = (ck a).at u h
      step (err x, u) h = h

module _ {κ μ} (env : Env) (P : Files → Type κ) (Q : Files → Type μ) (S : Files → Type μ) where
  pub Covers-os_write :
      (g : Files → Files)
      → ((fs : Files) → P fs → Q (g fs))
      → ((fs : Files) → P fs → S fs)
      → Covers (λ w. P w.fs) (os_write env g) (λ _ v. Q v.fs) (λ v. S v.fs)
  unfolding os_write
  Covers-os_write g change safe = record { at = λ w p. step w p (env.os_fault w.tick) }
    where
      step :
          (w : World)
          → P w.fs
          → (f : Option (ℕ × Text))
          → Ends (λ (_ : Unit {0}) v. Q v.fs) (λ v. S v.fs) (os_outcome {0} env tt (g w.fs) w f)
      step w p none = change w.fs p
      step w p (some x) = safe w.fs p

-- A read that returns has what it read of the files.
pub Covers-os_read {κ} :
    (env : Env) (P S : Files → Type κ) (f : Files → Text)
    → ((fs : Files) → P fs → S fs)
    → Covers (λ w. P w.fs) (os_read env f) (λ a v. (r : a ≡ f v.fs) × P v.fs) (λ v. S v.fs)
unfolding os_read
Covers-os_read env P S f safe = record { at = λ w p. step w p (env.os_fault w.tick) }
  where
    step :
        (w : World)
        → P w.fs
        → (g : Option (ℕ × Text))
        → Ends
            (λ (a : Text) v. (r : a ≡ f v.fs) × P v.fs)
            (λ v. S v.fs)
            (os_outcome {0} env (f w.fs) w.fs w g)
    step w p none = (refl, p)
    step w p (some x) = safe w.fs p

pub Covers-fs {κ} :
    (P S : Files → Type κ) (m : Io (Unit {0}))
    → Keeps (λ w. w.fs) m
    → ((fs : Files) → P fs → S fs)
    → Covers (λ w. P w.fs) m (λ _ v. S v.fs) (λ v. S v.fs)
Covers-fs P S m k safe = record { at = λ w p. step (m w) (safe _ (subst P (sym (k.at w)) p)) }
  where
    step : (r : Result (Unit {0}) × World) → S r.1.fs → Ends (λ _ v. S v.fs) (λ v. S v.fs) r
    step (ok a, v) h = h
    step (err x, v) h = h

-- From a world with `P`, every run ends in one with `Q`, whether it returns or raises.
pub record Leads {ℓ κ μ} {A : Type ℓ} (P : World → Type κ) (m : Io A) (Q : World → Type μ)
    : Type (κ ⊔ μ) where
  pub at : (w : World) → P w → Q (m w).1

module _ {ℓ κ μ ν ο} {A : Type ℓ} {B : Type κ} (P : World → Type μ) (Q : World → Type ν)
    (S : World → Type ο) where
  pub Leads-bind :
      (m : Io A) (k : A → Io B)
      → Leads P m Q
      → ((a : A) → Leads Q (k a) S)
      → ((w : World) → Q w → S w)
      → Leads P (m >>= k) S
  Leads-bind m k lm lk raised = record { at = λ w p. step (m w) (lm.at w p) }
    where
      step : (r : Result A × World) → Q r.1 → S (continue k r).1
      step (ok a, v) h = (lk a).at v h
      step (err x, v) h = raised v h
