-- ===== src/Base/Table/Laws.antt =====
-- How the conditions of a statement see the rows that another statement wrote.
use Prim.Native.Nat.{◌+◌, ◌≤◌}
use mathlib.Core.Path.{◌≡◌, refl}
use mathlib.Core.Bool.{Bool, true, false, ◌||◌}
use mathlib.Core.List.{List, [], ◌∷◌, ◌++◌}
use native.Mathlib.Omega.{arith}
use browser_visit_logger.Base.Equality.{if◌then◌else◌}
use browser_visit_logger.Base.Lists.{length, All}
use browser_visit_logger.Base.Table.{exists, count, update, insert_or_ignore}

module _ {ℓ} {R : Type ℓ} where
  pub exists-append :
      (p : R → Bool) (xs ys : List R) → exists p (xs ++ ys) ≡ (exists p xs || exists p ys)
  unfolding exists
  exists-append p [] ys = refl
  exists-append p (x ∷ xs) ys = ground (arith, exists-append p xs ys)

  pub count-append : (p : R → Bool) (xs ys : List R) → count p (xs ++ ys) ≡ count p xs + count p ys
  unfolding count
  count-append p [] ys = omega arith
  count-append p (x ∷ xs) ys = omega (arith, count-append p xs ys)

  pub count_of_absent : (p : R → Bool) (rows : List R) → exists p rows ≡ false → count p rows ≡ 0
  unfolding exists count
  count_of_absent p [] h = refl
  count_of_absent p (r ∷ rows) h = ground (arith, count_of_absent p rows)

  pub absent_of_count : (p : R → Bool) (rows : List R) → count p rows ≡ 0 → exists p rows ≡ false
  unfolding exists count
  absent_of_count p [] h = refl
  absent_of_count p (r ∷ rows) h = ground (arith, absent_of_count p rows)

  -- Two conditions that no row meets together and one of which implies the other's count.
  pub count_mono :
      (p q : R → Bool)
      → ((r : R) → p r ≡ true → q r ≡ true)
      → (rows : List R) → count p rows ≤ count q rows
  unfolding count
  count_mono p q h [] = omega arith
  count_mono p q h (r ∷ rows) = ground (arith, h r, count_mono p q h rows)

  -- An update that keeps the condition of a query is not seen by it.
  module _ (p q : R → Bool) (f : R → R) (same : (r : R) → p (f r) ≡ p r) where
    pub exists-update : (rows : List R) → exists p (update q f rows) ≡ exists p rows
    unfolding exists update
    exists-update [] = refl
    exists-update (r ∷ rows) = ground (arith, same r, exists-update rows)

    pub count-update : (rows : List R) → count p (update q f rows) ≡ count p rows
    unfolding count update
    count-update [] = refl
    count-update (r ∷ rows) = ground (arith, same r, count-update rows)

  pub length-update :
      (q : R → Bool) (f : R → R) (rows : List R) → length (update q f rows) ≡ length rows
  unfolding update
  length-update q f [] = refl
  length-update q f (r ∷ rows) = ground (arith, length-update q f rows)

  pub All-update {κ μ} :
      (P : R → Type κ) (Q : R → Type μ) (q : R → Bool) (f : R → R)
      → ((r : R) → P r → q r ≡ true → Q (f r))
      → ((r : R) → P r → q r ≡ false → Q r)
      → (rows : List R) → All P rows
      → All Q (update q f rows)
  unfolding update
  All-update P Q q f hit miss [] h = tt
  All-update P Q q f hit miss (r ∷ rows) (pr, h) =
      (step (q r) refl, All-update P Q q f hit miss rows h)
    where
      step : (b : Bool) → q r ≡ b → Q (if b then f r else r)
      step true e = hit r pr e
      step false e = miss r pr e

  -- Where no row meets the condition an update writes nothing.
  pub update_of_absent :
      (q : R → Bool) (f : R → R) (rows : List R) → exists q rows ≡ false → update q f rows ≡ rows
  unfolding exists update
  update_of_absent q f [] h = refl
  update_of_absent q f (r ∷ rows) h = ground (arith, update_of_absent q f rows)

  -- A condition that holds of a new row finds it after the insertion.
  module _ (clash : R → Bool) (r : R) (hit : clash r ≡ true) where
    pub exists-insert_or_ignore :
        (rows : List R) → exists clash (insert_or_ignore clash r rows) ≡ true
    unfolding insert_or_ignore
    exists-insert_or_ignore rows = ground (arith, exists-append clash rows (r ∷ []))

    -- A repeated insertion is ignored.
    pub insert_or_ignore_again :
        (s : R) (rows : List R)
        → insert_or_ignore clash s (insert_or_ignore clash r rows) ≡ insert_or_ignore clash r rows
    unfolding insert_or_ignore
    insert_or_ignore_again s rows = ground (arith, exists-append clash rows (r ∷ []))

    pub count-insert_or_ignore :
        (rows : List R) → count clash rows ≤ 1 → count clash (insert_or_ignore clash r rows) ≤ 1
    unfolding insert_or_ignore count
    count-insert_or_ignore rows h =
        ground (arith, count-append clash rows (r ∷ []), count_of_absent clash rows)
