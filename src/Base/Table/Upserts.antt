-- ===== src/Base/Table/Upserts.antt =====
-- What a query finds after an upsert.
use mathlib.Core.Path.{◌≡◌, refl}
use mathlib.Core.Bool.{Bool, true, false}
use mathlib.Core.Option.{Option, none, some}
use mathlib.Core.List.{List, [], ◌∷◌, ◌++◌}
use native.Mathlib.Omega.{arith}
use browser_visit_logger.Base.Equality.{if◌then◌else◌}
use browser_visit_logger.Base.Table.{exists, first, update, upsert}

module _ {ℓ} {R : Type ℓ} (p : R → Bool) (f : R → R) (new : R) where
  abbrev pub upserted : Option R → R
  upserted none = new
  upserted (some r) = f r

  absent-first : (rows : List R) → exists p rows ≡ false → first p rows ≡ none
  unfolding exists first
  absent-first [] h = refl
  absent-first (r ∷ rows) h = ground (arith, absent-first rows)

  first-snoc :
      (rows : List R) → p new ≡ true → exists p rows ≡ false → first p (rows ++ new ∷ []) ≡ some new
  unfolding exists first
  first-snoc [] n h = ground arith
  first-snoc (r ∷ rows) n h = ground (arith, first-snoc rows)

  first-update :
      (rows : List R)
      → ((r : R) → p (f r) ≡ p r)
      → exists p rows ≡ true
      → first p (update p f rows) ≡ some (upserted (first p rows))
  unfolding exists first update
  first-update [] same h = ground arith
  first-update (r ∷ rows) same h = ground (arith, same r, first-update rows same)

  -- The row with the key is the changed one, or the new one where there was none.
  pub first-upsert :
      (rows : List R)
      → ((r : R) → p (f r) ≡ p r)
      → p new ≡ true
      → first p (upsert p f new rows) ≡ some (upserted (first p rows))
  unfolding upsert
  first-upsert rows same n = one (exists p rows) refl
    where
      one :
          (b : Bool)
          → exists p rows ≡ b
          → first p (if b then update p f rows else rows ++ new ∷ [])
            ≡ some (upserted (first p rows))
      one true e = first-update rows same e
      one false e = rw (first-snoc rows n e, absent-first rows e) refl

  other-snoc :
      (q : R → Bool) (rows : List R) → q new ≡ false → first q (rows ++ new ∷ []) ≡ first q rows
  unfolding first
  other-snoc q [] n = ground arith
  other-snoc q (r ∷ rows) n = ground (arith, other-snoc q rows n)

  other-update :
      (q : R → Bool) (rows : List R)
      → ((r : R) → p r ≡ true → q r ≡ false)
      → ((r : R) → p r ≡ true → q (f r) ≡ false)
      → first q (update p f rows) ≡ first q rows
  unfolding first update
  other-update q [] h k = refl
  other-update q (r ∷ rows) h k = ground (arith, h r, k r, other-update q rows h k)

  -- A query for other rows finds what it found before.
  pub first-upsert_other :
      (q : R → Bool) (rows : List R)
      → ((r : R) → p r ≡ true → q r ≡ false)
      → ((r : R) → p r ≡ true → q (f r) ≡ false)
      → q new ≡ false
      → first q (upsert p f new rows) ≡ first q rows
  unfolding upsert
  first-upsert_other q rows h k n = one (exists p rows)
    where
      one : (b : Bool) → first q (if b then update p f rows else rows ++ new ∷ []) ≡ first q rows
      one true = other-update q rows h k
      one false = other-snoc q rows n
