-- ===== src/Base/Distinct.antt =====
-- Lists of texts without repetition.
use mathlib.Core.Path.{◌≡◌, refl, ◌∙◌}
use mathlib.Core.Logic.{inl, inr}
use mathlib.Core.Bool.{Bool, false, ◌&&◌}
use mathlib.Core.List.{List, [], ◌∷◌}
use native.Mathlib.Omega.{arith}
use browser_visit_logger.Base.Equality.{Text, text_eq, contains, Bool-cases}
use browser_visit_logger.Base.Lists.{keep, All}
use browser_visit_logger.Base.Sorting.{sorted, insert, contains-insert, contains-sorted}

-- No element stands twice.
abbrev pub Distinct : List Text → Type 0
Distinct [] = Unit
Distinct (x ∷ xs) = (contains xs x ≡ false) × Distinct xs

pub contains-keep :
    (p : Text → Bool) (xs : List Text) (x : Text) → contains (keep p xs) x ≡ (contains xs x && p x)
contains-keep p [] x = refl
contains-keep p (y ∷ xs) x = ground (arith, contains-keep p xs x)

pub keep-Distinct : (p : Text → Bool) (xs : List Text) → Distinct xs → Distinct (keep p xs)
keep-Distinct p [] h = tt
keep-Distinct p (x ∷ xs) h = ground (arith, contains-keep p xs x, keep-Distinct p xs h.1)

module _ (le : Text → Text → Bool) where
  insert-Distinct :
      (x : Text) (ys : List Text) → contains ys x ≡ false → Distinct ys → Distinct (insert le x ys)
  unfolding insert
  insert-Distinct x [] h d = (refl, tt)
  insert-Distinct x (y ∷ ys) h d = ground (arith, contains-insert le y x ys, insert-Distinct x ys)

  pub sorted-Distinct : (xs : List Text) → Distinct xs → Distinct (sorted le xs)
  unfolding sorted
  sorted-Distinct [] d = tt
  sorted-Distinct (x ∷ xs) (fresh, d) =
      insert-Distinct x (sorted le xs) (contains-sorted le x xs ∙ fresh) (sorted-Distinct xs d)

pub All-keep {κ} :
    (P : Text → Type κ) (p : Text → Bool) (xs : List Text) → All P xs → All P (keep p xs)
All-keep P p [] h = tt
All-keep P p (x ∷ xs) h = elim (Bool-cases (p x)) [
  | inl kept ↦ rw (kept, keep) (h.0, All-keep P p xs h.1)
  | inr left ↦ rw (left, keep) (All-keep P p xs h.1)
]
