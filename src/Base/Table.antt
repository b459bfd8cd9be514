-- ===== src/Base/Table.antt =====
-- The SQL statements of the program, over a table as the list of its rows in the order of insertion.
pub mod Laws
pub mod Upserts
use Prim.Native.Nat.{ℕ, suc, ◌+◌, ◌≤◌}
use mathlib.Core.Path.{◌≡◌, refl}
use mathlib.Core.Bool.{Bool, true, false, not, ◌||◌}
use mathlib.Core.Option.{Option, none, some}
use mathlib.Core.List.{List, [], ◌∷◌, ◌++◌, map}
use native.Mathlib.Omega.{arith}
use browser_visit_logger.Base.Equality.{if◌then◌else◌}
use browser_visit_logger.Base.Lists.{All}

module _ {ℓ} {R : Type ℓ} where
  -- `SELECT 1 FROM t WHERE p`, as a test
  unfoldable pub exists : (R → Bool) → List R → Bool
  exists p [] = false
  exists p (r ∷ rows) = p r || exists p rows

  -- `SELECT … FROM t WHERE p` and `fetchone()`
  unfoldable pub first : (R → Bool) → List R → Option R
  first p [] = none
  first p (r ∷ rows) = let rest = first p rows in if p r then some r else rest

  -- `SELECT COUNT(*) FROM t WHERE p`, and the `rowcount` of an UPDATE or DELETE with that condition
  unfoldable pub count : (R → Bool) → List R → ℕ
  count p [] = 0
  count p (r ∷ rows) = (if p r then 1 else 0) + count p rows

  -- `UPDATE t SET f WHERE p`
  unfoldable pub update : (R → Bool) → (R → R) → List R → List R
  update p f [] = []
  update p f (r ∷ rows) = (if p r then f r else r) ∷ update p f rows

  -- `DELETE FROM t WHERE p`
  unfoldable pub delete : (R → Bool) → List R → List R
  delete p [] = []
  delete p (r ∷ rows) = let rest = delete p rows in if p r then rest else r ∷ rest

  -- `INSERT OR IGNORE`: `clash` finds the rows that have the new row's primary key.
  unfoldable pub insert_or_ignore : (R → Bool) → R → List R → List R
  unfolding exists
  insert_or_ignore clash r rows = if exists clash rows then rows else rows ++ r ∷ []

  -- `INSERT … ON CONFLICT DO UPDATE SET f`
  unfoldable pub upsert : (R → Bool) → (R → R) → R → List R → List R
  unfolding exists update
  upsert clash f r rows = if exists clash rows then update clash f rows else rows ++ r ∷ []
