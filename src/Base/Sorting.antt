-- ===== src/Base/Sorting.antt =====
-- `sorted(xs)` and `list.sort`, stable, by a Boolean order.
use mathlib.Core.Path.{◌≡◌, refl, subst, sym}
use mathlib.Core.Logic.{inl, inr}
use mathlib.Core.Bool.{Bool, true, false, false≢true, ◌||◌}
use mathlib.Core.List.{List, [], ◌∷◌, Perm}
use mathlib.Core.List.Perm
use native.Mathlib.Omega.{arith}
use browser_visit_logger.Base.Equality.{Bool-cases, Eq, contains, ◌==◌}
use browser_visit_logger.Base.Lists.{All}

module _ {ℓ} {A : Type ℓ} (le : A → A → Bool) where
  unfoldable pub insert : A → List A → List A
  insert x [] = x ∷ []
  insert x (y ∷ ys) =
      let rest = insert x ys in elim (le x y) [ true ↦ x ∷ y ∷ ys | false ↦ y ∷ rest ]

  unfoldable pub sorted : List A → List A
  unfolding insert
  sorted [] = []
  sorted (x ∷ xs) = insert x (sorted xs)

  -- Each element is in order with the next one.
  abbrev pub IsSorted : List A → Type 0
  IsSorted [] = Unit
  IsSorted (x ∷ []) = Unit
  IsSorted (x ∷ y ∷ ys) = (le x y ≡ true) × IsSorted (y ∷ ys)

  insert-IsSorted :
      ((x y : A) → le x y ≡ false → le y x ≡ true)
      → (x : A) (ys : List A) → IsSorted ys
      → IsSorted (insert x ys)
  unfolding insert
  insert-IsSorted total x [] h = tt
  insert-IsSorted total x (y ∷ []) h = ground (arith, total x y)
  insert-IsSorted total x (y ∷ z ∷ zs) h =
      ground (arith, total x y, insert-IsSorted total x (z ∷ zs) h.1)

  pub sorted-IsSorted :
      ((x y : A) → le x y ≡ false → le y x ≡ true) → (xs : List A) → IsSorted (sorted xs)
  unfolding sorted
  sorted-IsSorted total [] = tt
  sorted-IsSorted total (x ∷ xs) = insert-IsSorted total x (sorted xs) (sorted-IsSorted total xs)

  insert-perm : (x : A) (ys : List A) → Perm (insert x ys) (x ∷ ys)
  unfolding insert
  insert-perm x [] = Perm.refl _
  insert-perm x (y ∷ ys) = elim (Bool-cases (le x y)) [
    | inl yes_le ↦ rw (yes_le, insert) (Perm.refl _)
    | inr no_le ↦
        rw (no_le, insert) (Perm.trans (Perm.cons y (insert-perm x ys)) (Perm.swap x y ys))
  ]

  pub sorted-perm : (xs : List A) → Perm (sorted xs) xs
  unfolding sorted
  sorted-perm [] = Perm.refl _
  sorted-perm (x ∷ xs) = Perm.trans (insert-perm x (sorted xs)) (Perm.cons x (sorted-perm xs))

  module _ {κ} (P : A → Type κ) where
    All-insert : (x : A) (ys : List A) → P x → All P ys → All P (insert x ys)
    unfolding insert
    All-insert x [] px h = (px, tt)
    All-insert x (y ∷ ys) px h = elim (Bool-cases (le x y)) [
      | inl yes_le ↦ rw (yes_le, insert) (px, h)
      | inr no_le ↦ rw (no_le, insert) (h.0, All-insert x ys px h.1)
    ]

    pub All-sorted : (xs : List A) → All P xs → All P (sorted xs)
    unfolding sorted
    All-sorted [] h = tt
    All-sorted (x ∷ xs) h = All-insert x (sorted xs) h.0 (All-sorted xs h.1)

module _ {ℓ} {A : Type ℓ} ⦃e : Eq A⦄ (le : A → A → Bool) where
  pub contains-insert :
      (a x : A) (ys : List A) → contains (insert le x ys) a ≡ (a == x || contains ys a)
  unfolding insert
  contains-insert a x [] = refl
  contains-insert a x (y ∷ ys) = ground (arith, contains-insert a x ys)

  -- Sorting keeps the elements.
  pub contains-sorted : (a : A) (xs : List A) → contains (sorted le xs) a ≡ contains xs a
  unfolding sorted
  contains-sorted a [] = refl
  contains-sorted a (x ∷ xs) =
      ground (arith, contains-insert a x (sorted le xs), contains-sorted a xs)

module _ {ℓ} {A : Type ℓ} ⦃e : Eq A⦄ where
  -- What holds at every element holds at one that the list contains.
  pub All-contains {κ} :
      (P : A → Type κ) (a : A) (xs : List A) → All P xs → contains xs a ≡ true → P a
  All-contains P a [] h c = absurd (false≢true c)
  All-contains P a (x ∷ xs) (px, h) c = elim (e.dec a x) [
    | yes same ↦ subst P (sym same) px
    | no other ↦ All-contains P a xs h (ground arith)
  ]
