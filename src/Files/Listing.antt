-- ===== src/Files/Listing.antt =====
-- What a directory listing holds.
use browser_visit_logger.Base.{
  Text, false, Option, none, some, [], ◌∷◌, ◌++◌, nat_eq, text_eq, contains, ◌≡◌, refl, ◌∙◌, ap,
  sym, arith, All, All-filter_map, Bool-cases, inl, inr, ◌==◌,
}
use browser_visit_logger.Base.Dict.{get, NodupKeys}
use browser_visit_logger.Base.Distinct.{Distinct}
use browser_visit_logger.Base.Strings.{after_prefix}
use browser_visit_logger.Base.Strings.Laws.{after_prefix-append}
use browser_visit_logger.Files.{Files, Node, list_dir, listed_name, only_name}
use browser_visit_logger.Paths.{path_join, sep}
use browser_visit_logger.Paths.Subdirs.{IsEntryName}
use mathlib.Core.List.{filter_map}
use mathlib.Core.Option.{Option-elim}

only_name_lem : (t name : Text) → only_name t ≡ some name → (t ≡ name) × IsEntryName name
only_name_lem [] name h = absurd (ground arith)
only_name_lem (c ∷ t) name h = elim (Bool-cases (contains (c ∷ t) sep)) [
  | inl has ↦ absurd (ground arith)
  | inr lacks ↦ ground arith
]

-- A listed name is that of an entry, and the path is the directory's with the name behind it.
listed_name_lem :
    (d path name : Text) (node : Node)
    → listed_name d (path, node) ≡ some name
    → (path ≡ path_join d [] ++ name) × IsEntryName name
unfolding listed_name
listed_name_lem d path name node h = one (after_prefix (path_join d []) path) refl h
  where
    one :
        (o : Option Text)
        → after_prefix (path_join d []) path ≡ o
        → (elim o [ none ↦ none | some t ↦ only_name t ]) ≡ some name
        → (path ≡ path_join d [] ++ name) × IsEntryName name
    one none e k = absurd (ground arith)
    one (some t) e k =
        let (same, entry) = only_name_lem t name k in
        (after_prefix-append (path_join d []) path t e ∙ ap (λ u. path_join d [] ++ u) same, entry)

pub All-list_dir : (d : Text) (fs : Files) → All IsEntryName (list_dir d fs)
unfolding list_dir
All-list_dir d fs =
    All-filter_map IsEntryName (listed_name d) fs
      (λ (path, node) name e. (listed_name_lem d path name node e).1)

module _ (d : Text) where
  -- A path that is no key is not listed.
  list_dir-absent :
      (fs : Files) (name : Text)
      → get (path_join d [] ++ name) fs ≡ none
      → contains (list_dir d fs) name ≡ false
  unfolding list_dir get
  list_dir-absent [] name h = refl
  list_dir-absent ((path, node) ∷ fs) name h =
      one (list_dir-absent fs name (ground arith)) (listed_name d (path, node)) refl
    where
      other : (path == path_join d [] ++ name) ≡ false
      other = ground arith

      one :
          contains (list_dir d fs) name ≡ false
          → (o : Option Text) → listed_name d (path, node) ≡ o
          → contains
              (Option-elim o
                (filter_map (listed_name d) fs)
                (λ n. n ∷ filter_map (listed_name d) fs))
              name
            ≡ false
      one rest none e = rest
      one rest (some n) e = ground (arith, other, rest, (listed_name_lem d path n node e).0)

  pub list_dir-Distinct : (fs : Files) → NodupKeys fs → Distinct (list_dir d fs)
  unfolding list_dir
  list_dir-Distinct [] u = tt
  list_dir-Distinct ((path, node) ∷ fs) (fresh, u) =
      one (list_dir-Distinct fs u) (listed_name d (path, node)) refl
    where
      one :
          Distinct (list_dir d fs)
          → (o : Option Text) → listed_name d (path, node) ≡ o
          → Distinct (
              Option-elim o
                (filter_map (listed_name d) fs)
                (λ n. n ∷ filter_map (listed_name d) fs))
      one ih none e = ih
      one ih (some n) e = (
        list_dir-absent fs n (ap (λ q. get q fs) (sym (listed_name_lem d path n node e).0) ∙ fresh),
        ih,
      )
