-- ===== src/Snapshots/Errors/Streaks.antt =====
-- A streak of failures of one operation on one target, in the rows of `mover_errors`.
use browser_visit_logger.Base.{
  Text, ℕ, List, [], ◌∷◌, text_eq, nat_eq, ◌==◌, ◌≡◌, Option, none, some, ◌+◌, arith, ◌∙◌, refl,
  length, ap,
}
use browser_visit_logger.Snapshots.Errors.{upsert_error, error_key, max}
use browser_visit_logger.Database.{MoverError}
use browser_visit_logger.Base.Table.{first}
use browser_visit_logger.Base.Table.Upserts.{first-upsert}

-- A failure: its message, when it is recorded, and whether it is immediate.
abbrev pub Failure : Type 0
Failure = Text × Text × ℕ

unfoldable pub record_failures : Text → Text → List Failure → List MoverError → List MoverError
record_failures op target [] rows = rows
record_failures op target ((message, now, immediate) ∷ more) rows =
    record_failures op target more (upsert_error op target message now immediate rows)

-- What a report reads of a row.
abbrev pub summarised : Option MoverError → Option (ℕ × Text × ℕ)
summarised none = none
summarised (some r) = some (r.attempts, r.first_seen, r.notified)

module _ (op target : Text) where
  abbrev pub streak : List MoverError → Option MoverError
  streak rows = first (λ r. r.key == error_key op target) rows

  goes_on :
      (message now : Text) (immediate : ℕ) (rows : List MoverError) (r : MoverError)
      → streak rows ≡ some r
      → streak (upsert_error op target message now immediate rows)
        ≡ some (record r {
          attempts = r.attempts + 1;
          last_seen = now;
          message = message;
          immediate = max r.immediate immediate;
        })
  unfolding upsert_error
  goes_on message now immediate rows r h =
      first-upsert (λ r. r.key == error_key op target) _ _ rows (λ r. refl) (ground arith)
      ∙ rw h refl

  starts :
      (message now : Text) (immediate : ℕ) (rows : List MoverError)
      → streak rows ≡ none
      → streak (upsert_error op target message now immediate rows)
        ≡ some (record {
          key = error_key op target;
          operation = op;
          target = target;
          message = message;
          first_seen = now;
          last_seen = now;
          attempts = 1;
          notified = 0;
          immediate = immediate;
        })
  unfolding upsert_error
  starts message now immediate rows h =
      first-upsert (λ r. r.key == error_key op target) _ _ rows (λ r. refl) (ground arith)
      ∙ rw h refl

  counted :
      (more : List Failure) (rows : List MoverError) (r : MoverError)
      → streak rows ≡ some r
      → summarised (streak (record_failures op target more rows))
        ≡ some (r.attempts + length more, r.first_seen, r.notified)
  unfolding record_failures
  counted [] rows r h = ap summarised h ∙ ap (λ n. some (n, r.first_seen, r.notified)) (omega arith)
  counted ((message, now, immediate) ∷ more) rows r h =
      counted more (upsert_error op target message now immediate rows) _
        (goes_on message now immediate rows r h)
      ∙ ap (λ n. some (n, r.first_seen, r.notified)) (omega arith)

  -- Where no row has the key, a first failure and the failures after it leave one row found under
  -- the key: its attempts are the number of the failures, it was first seen at the first one, and it
  -- is not notified.
  pub failures_are_counted :
      (message now : Text) (immediate : ℕ) (more : List Failure) (rows : List MoverError)
      → streak rows ≡ none
      → summarised (streak (record_failures op target ((message, now, immediate) ∷ more) rows))
        ≡ some (1 + length more, now, 0)
  unfolding record_failures
  failures_are_counted message now immediate more rows h =
      counted more (upsert_error op target message now immediate rows) _
        (starts message now immediate rows h)
