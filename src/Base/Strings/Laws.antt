-- ===== src/Base/Strings/Laws.antt =====
-- The order of texts, and splitting after joining.
use browser_visit_logger.Base.Strings.{text_lt, split, join, replace, after_prefix}
use Prim.Native.Nat.{ℕ}
use mathlib.Core.Path.{◌≡◌, refl}
use mathlib.Core.Bool.{true, false, ◌||◌}
use mathlib.Core.Option.{some}
use mathlib.Core.List.{List, [], ◌∷◌, ◌++◌}
use native.Mathlib.Omega.{arith}
use browser_visit_logger.Base.Equality.{Text, contains, nat_eq, ◌==◌, if◌then◌else◌}
use browser_visit_logger.Base.Lists.{All}

pub text_lt_asymm : (s t : Text) → text_lt s t ≡ true → text_lt t s ≡ false
unfolding text_lt
text_lt_asymm [] [] h = refl
text_lt_asymm [] (d ∷ t) h = refl
text_lt_asymm (c ∷ s) [] h = ground arith
text_lt_asymm (c ∷ s) (d ∷ t) h = ground (arith, text_lt_asymm s t)

pub text_lt_irrefl : (s : Text) → text_lt s s ≡ false
unfolding text_lt
text_lt_irrefl [] = refl
text_lt_irrefl (c ∷ s) = ground (arith, text_lt_irrefl s)

pub text_lt_trans : (s t u : Text) → text_lt s t ≡ true → text_lt t u ≡ true → text_lt s u ≡ true
unfolding text_lt
text_lt_trans [] [] u h k = ground arith
text_lt_trans [] (d ∷ t) [] h k = ground arith
text_lt_trans [] (d ∷ t) (e ∷ u) h k = refl
text_lt_trans (c ∷ s) [] u h k = ground arith
text_lt_trans (c ∷ s) (d ∷ t) [] h k = ground arith
text_lt_trans (c ∷ s) (d ∷ t) (e ∷ u) h k = ground (arith, text_lt_trans s t u)

-- Texts that are in order neither way are equal.
pub text_lt_connex : (s t : Text) → text_lt s t ≡ false → text_lt t s ≡ false → s ≡ t
unfolding text_lt
text_lt_connex [] [] h k = refl
text_lt_connex [] (d ∷ t) h k = ground arith
text_lt_connex (c ∷ s) [] h k = ground arith
text_lt_connex (c ∷ s) (d ∷ t) h k = ground (arith, text_lt_connex s t)

-- The texts that a character does not occur in.
abbrev pub Lacks : ℕ → Text → Type 0
Lacks c s = contains s c ≡ false

pub contains-append : (c : ℕ) (s t : Text) → contains (s ++ t) c ≡ (contains s c || contains t c)
contains-append c [] t = refl
contains-append c (d ∷ s) t = ground (arith, contains-append c s t)

-- Replacing keeps other characters out.
pub Lacks-replace :
    (c old : ℕ) (new s : Text) → Lacks c new → Lacks c s → Lacks c (replace old new s)
unfolding replace
Lacks-replace c old new [] n h = refl
Lacks-replace c old new (d ∷ s) n h = ground (
  arith,
  Lacks-replace c old new s n,
  contains-append c (if d == old then new else d ∷ []) (replace old new s),
)

pub Lacks-replaced : (c : ℕ) (new s : Text) → Lacks c new → Lacks c (replace c new s)
unfolding replace
Lacks-replaced c new [] n = refl
Lacks-replaced c new (d ∷ s) n = ground (
  arith,
  Lacks-replaced c new s n,
  contains-append c (if d == c then new else d ∷ []) (replace c new s),
)

split_lacking : (c : ℕ) (s : Text) → Lacks c s → split c s ≡ s ∷ []
unfolding split
split_lacking c [] h = refl
split_lacking c (d ∷ s) h = ground (arith, split_lacking c s)

split-append : (c : ℕ) (s t : Text) → Lacks c s → split c (s ++ (c ∷ t)) ≡ s ∷ split c t
unfolding split
split-append c [] t h = ground arith
split-append c (d ∷ s) t h = ground (arith, split-append c s t)

-- Joined parts that lack the separator are found again.
pub split-join :
    (c : ℕ) (part : Text) (parts : List Text)
    → All (Lacks c) (part ∷ parts)
    → split c (join (c ∷ []) (part ∷ parts)) ≡ part ∷ parts
unfolding join
split-join c part [] h = split_lacking c part h.0
split-join c part (next ∷ parts) h =
    ground
      (arith, split-append c part (join (c ∷ []) (next ∷ parts)) h.0, split-join c next parts h.1)

pub after_prefix-append : (old s rest : Text) → after_prefix old s ≡ some rest → s ≡ old ++ rest
unfolding after_prefix
after_prefix-append [] s rest h = cc
after_prefix-append (p ∷ old) [] rest h = absurd (cc)
after_prefix-append (p ∷ old) (c ∷ s) rest h = ground (arith, after_prefix-append old s rest)
