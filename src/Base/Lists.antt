-- ===== src/Base/Lists.antt =====
-- Lists measured and cut by native numbers, and the predicate that holds at every element.
use Prim.Native.Nat.{ℕ, zero, suc, ◌+◌}
use mathlib.Core.Path.{◌≡◌, refl}
use mathlib.Core.Bool.{Bool, true, false, cond}
use mathlib.Core.List.{List, [], ◌∷◌, ◌++◌, flat_map, filter_map}
use native.Mathlib.Omega.{arith}
use mathlib.Core.Option.{Option, none, some, Option-elim}

module _ {ℓ} {A : Type ℓ} where
  abbrev pub length : List A → ℕ
  length [] = 0
  length (x ∷ xs) = suc (length xs)

  abbrev pub take : ℕ → List A → List A
  take zero xs = []
  take (suc n) [] = []
  take (suc n) (x ∷ xs) = x ∷ take n xs

  abbrev pub is_empty : List A → Bool
  is_empty [] = true
  is_empty (x ∷ xs) = false

  -- `[x for x in xs if p(x)]`
  abbrev pub keep : (A → Bool) → List A → List A
  keep p [] = []
  keep p (x ∷ xs) = let rest = keep p xs in elim (p x) [ true ↦ x ∷ rest | false ↦ rest ]

  abbrev pub All {κ} : (A → Type κ) → List A → Type κ
  All P [] = Unit
  All P (x ∷ xs) = P x × All P xs

module _ {ℓ} {A : Type ℓ} where
  pub length-append : (xs ys : List A) → length (xs ++ ys) ≡ length xs + length ys
  length-append [] ys = omega arith
  length-append (x ∷ xs) ys = omega (arith, length-append xs ys)

  pub All-append {κ} : (P : A → Type κ) (xs ys : List A) → All P xs → All P ys → All P (xs ++ ys)
  All-append P [] ys hx hy = hy
  All-append P (x ∷ xs) ys hx hy = (hx.0, All-append P xs ys hx.1 hy)

  pub All-map {κ μ} :
      (P : A → Type κ) (Q : A → Type μ) (xs : List A) → ((a : A) → P a → Q a) → All P xs → All Q xs
  All-map P Q [] f h = tt
  All-map P Q (x ∷ xs) f h = (f x h.0, All-map P Q xs f h.1)

  pub All-if {κ} : (P : A → Type κ) (b : Bool) (xs : List A) → All P xs → All P (cond b xs [])
  All-if P true xs h = h
  All-if P false xs h = tt

module _ {ℓ κ} {A : Type ℓ} {B : Type κ} where
  pub All-filter_map {μ} :
      (P : B → Type μ) (f : A → Option B) (xs : List A)
      → ((x : A) (y : B) → f x ≡ some y → P y)
      → All P (filter_map f xs)
  unfolding filter_map Option-elim
  All-filter_map P f [] h = tt
  All-filter_map P f (x ∷ xs) h = step (f x) (h x) (All-filter_map P f xs h)
    where
      step :
          (o : Option B)
          → ((y : B) → o ≡ some y → P y)
          → All P (filter_map f xs)
          → All P (Option-elim o (filter_map f xs) (λ b. b ∷ filter_map f xs))
      step none k ih = ih
      step (some y) k ih = (k y refl, ih)

  pub All-flat_map {μ} :
      (P : B → Type μ) (f : A → List B) (xs : List A)
      → ((x : A) → All P (f x))
      → All P (flat_map f xs)
  unfolding flat_map
  All-flat_map P f [] h = tt
  All-flat_map P f (x ∷ xs) h = All-append P (f x) (flat_map f xs) (h x) (All-flat_map P f xs h)
