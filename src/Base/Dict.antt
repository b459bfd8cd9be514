-- ===== src/Base/Dict.antt =====
-- A Python `dict` with texts as keys, in the order of insertion. A key occurs once.
use browser_visit_logger.Base.Equality.{Text, ◌==◌, text_eq, if◌then◌else◌}
use browser_visit_logger.Base.Lists.{length}
use Prim.Native.Nat.{◌+◌}
use mathlib.Core.Path.{◌≡◌, refl}
use mathlib.Core.Option.{Option, none, some}
use mathlib.Core.List.{List, [], ◌∷◌}
use native.Mathlib.Omega.{arith}

abbrev pub Dict {ℓ} : Type ℓ → Type ℓ
Dict V = List (Text × V)

module _ {ℓ} {V : Type ℓ} where
  -- `d.get(k)`
  unfoldable pub get : Text → Dict V → Option V
  unfolding text_eq
  get k [] = none
  get k ((j, v) ∷ d) = let rest = get k d in if j == k then some v else rest

  -- `d[k] = v`
  unfoldable pub put : Text → V → Dict V → Dict V
  unfolding text_eq
  put k v [] = (k, v) ∷ []
  put k v ((j, w) ∷ d) = let rest = put k v d in if j == k then (j, v) ∷ d else (j, w) ∷ rest

  -- `d.pop(k, None)`, without the value
  unfoldable pub pop : Text → Dict V → Dict V
  unfolding text_eq
  pop k [] = []
  pop k ((j, w) ∷ d) = let rest = pop k d in if j == k then d else (j, w) ∷ rest

  -- No key occurs twice.
  abbrev pub NodupKeys : Dict V → Type ℓ
  NodupKeys [] = Unit
  NodupKeys ((k, _) ∷ d) = (get k d ≡ none) × NodupKeys d

  pub get-put :
      (j k : Text) (v : V) (d : Dict V) → get j (put k v d) ≡ (if k == j then some v else get j d)
  unfolding get put
  get-put j k v [] = ground arith
  get-put j k v ((i, w) ∷ d) = ground (arith, get-put j k v d)

  pub get-pop :
      (j k : Text) (d : Dict V) → NodupKeys d → get j (pop k d) ≡ (if k == j then none else get j d)
  unfolding get pop
  get-pop j k [] u = ground arith
  get-pop j k ((i, w) ∷ d) (fresh, u) = ground (arith, get-pop j k d u)

  pub put-NodupKeys : (k : Text) (v : V) (d : Dict V) → NodupKeys d → NodupKeys (put k v d)
  unfolding put get
  put-NodupKeys k v [] u = (refl, tt)
  put-NodupKeys k v ((j, w) ∷ d) (fresh, u) = ground (arith, put-NodupKeys k v d u, get-put j k v d)

  pub pop-NodupKeys : (k : Text) (d : Dict V) → NodupKeys d → NodupKeys (pop k d)
  unfolding pop
  pop-NodupKeys k [] u = tt
  pop-NodupKeys k ((j, w) ∷ d) (fresh, u) = ground (arith, pop-NodupKeys k d u, get-pop j k d u)

  pub length-put_new :
      (k : Text) (v : V) (d : Dict V) → get k d ≡ none → length (put k v d) ≡ length d + 1
  unfolding get put
  length-put_new k v [] h = refl
  length-put_new k v ((j, w) ∷ d) h = ground (arith, length-put_new k v d)

  pub length-put_old :
      (k : Text) (v w : V) (d : Dict V) → get k d ≡ some w → length (put k v d) ≡ length d
  unfolding get put
  length-put_old k v w [] h = ground arith
  length-put_old k v w ((j, x) ∷ d) h = ground (arith, length-put_old k v w d)

  pub length-pop :
      (k : Text) (w : V) (d : Dict V) → get k d ≡ some w → length (pop k d) + 1 ≡ length d
  unfolding get pop
  length-pop k w [] h = ground arith
  length-pop k w ((j, x) ∷ d) h = ground (arith, length-pop k w d)
