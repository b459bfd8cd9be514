-- ===== src/Paths/Subdirs.antt =====
-- Files of the same name in two subdirectories of one directory have two paths.
use browser_visit_logger.Base.{
  ℕ, Text, Bool, true, false, ◌||◌, [], ◌∷◌, ◌++◌, ◌==◌, nat_eq, text_eq, if◌then◌else◌, is_empty,
  ◌≡◌, refl, ◌∙◌, sym, ap, arith, contains, append_assoc,
}
use mathlib.Core.List.{append_cancel_left, append_cancel_right}
use browser_visit_logger.Paths.{path_join, sep, is_abs, ends_with_sep}

-- The name of an entry of a directory.
abbrev pub IsEntryName : Text → Type 0
IsEntryName name = (is_empty name ≡ false) × (contains name sep ≡ false)

ends_with_sep-append : (a t : Text) (c : ℕ) → ends_with_sep (a ++ (c ∷ t)) ≡ ends_with_sep (c ∷ t)
unfolding ends_with_sep
ends_with_sep-append [] t c = refl
ends_with_sep-append (x ∷ []) t c = refl
ends_with_sep-append (x ∷ y ∷ a) t c = ends_with_sep-append (y ∷ a) t c

ends_with_sep-entry :
    (c : ℕ) (t : Text) → contains (c ∷ t) sep ≡ false → ends_with_sep (c ∷ t) ≡ false
unfolding ends_with_sep
ends_with_sep-entry c [] h = ground arith
ends_with_sep-entry c (d ∷ t) h = ends_with_sep-entry d t (ground arith)

-- What `path_join` puts in front of a relative name.
stem : Text → Text
stem root = if is_empty root || ends_with_sep root then root else root ++ (sep ∷ [])

path_join-entry : (root name : Text) → is_abs name ≡ false → path_join root name ≡ stem root ++ name
unfolding path_join stem
path_join-entry root name h = rw h (one (is_empty root || ends_with_sep root))
  where
    one :
        (b : Bool)
        → (if b then root ++ name else root ++ (sep ∷ name))
          ≡ (if b then root else root ++ (sep ∷ [])) ++ name
    one true = refl
    one false = sym (append_assoc root (sep ∷ []) name)

is_abs-entry : (name : Text) → IsEntryName name → is_abs name ≡ false
unfolding is_abs
is_abs-entry [] h = refl
is_abs-entry (c ∷ name) (n, h) = ground arith

is_empty-append : (a t : Text) (c : ℕ) → is_empty (a ++ (c ∷ t)) ≡ false
is_empty-append [] t c = refl
is_empty-append (x ∷ a) t c = refl

stem-entry :
    (a t : Text) (c : ℕ)
    → contains (c ∷ t) sep ≡ false
    → stem (a ++ (c ∷ t)) ≡ (a ++ (c ∷ t)) ++ sep ∷ []
unfolding stem
stem-entry a t c h =
    rw (is_empty-append a t c, ends_with_sep-append a t c, ends_with_sep-entry c t h) refl

stem-subdir :
    (root name : Text)
    → IsEntryName name
    → stem (path_join root name) ≡ stem root ++ (name ++ sep ∷ [])
stem-subdir root [] (n, h) = absurd (ground arith)
stem-subdir root (c ∷ name) (n, h) =
    ap stem (path_join-entry root (c ∷ name) (is_abs-entry (c ∷ name) (n, h)))
    ∙ stem-entry (stem root) name c h
    ∙ append_assoc (stem root) (c ∷ name) (sep ∷ [])

-- The paths of a file in two different subdirectories differ.
pub path_join-apart :
    (root a b file : Text)
    → IsEntryName a
    → IsEntryName b
    → is_abs file ≡ false
    → (a == b) ≡ false
    → (path_join (path_join root a) file == path_join (path_join root b) file) ≡ false
path_join-apart root a b file ha hb hf other =
    elim (text_eq.dec (path_join (path_join root a) file) (path_join (path_join root b) file)) [
      | yes same ↦ absurd (differ (cancelled same))
      | no n ↦ ground arith
    ]
  where
    spelt :
        (name : Text)
        → IsEntryName name
        → path_join (path_join root name) file ≡ stem root ++ (name ++ sep ∷ []) ++ file
    spelt name h =
        path_join-entry (path_join root name) file hf
        ∙ ap (λ t. t ++ file) (stem-subdir root name h)

    cancelled : path_join (path_join root a) file ≡ path_join (path_join root b) file → a ≡ b
    cancelled same = append_cancel_right a b (sep ∷ []) (
        append_cancel_left (stem root) _ _
          (append_cancel_right _ _ file (sym (spelt a ha) ∙ same ∙ spelt b hb)))

    differ : a ≡ b → ⊥
    differ e = ground arith
