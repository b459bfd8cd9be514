-- ===== src/Reset/Gone.antt =====
-- What is gone behind a reset that ends without an exception.
use browser_visit_logger.Base.{
  Text, Bool, true, false, ◌||◌, Option, none, [], ◌∷◌, ◌≡◌, ◌⊎◌, inl, refl, arith, if◌then◌else◌,
  text_eq, All,
}
use browser_visit_logger.Base.Dict.{get, pop, NodupKeys, get-pop, pop-NodupKeys}
use browser_visit_logger.Files.{Files, path_exists, is_dir}
use browser_visit_logger.Reset.{
  Places, Flags, Kind, one_file, whole_dir, no_match, Targets, in_tree, remove_tree, delete_file,
  delete_dir, delete_target, if_running, delete_targets, targets_of, is_yes, reset,
}

-- A target of the kind 'dir' that is a file stays.
abbrev pub Gone : Files → Text × Kind → Type 0
Gone fs (p, one_file) = get p fs ≡ none
Gone fs (p, whole_dir) = is_dir p fs ≡ false
Gone fs (p, no_match) = Unit

get-remove_tree :
    (path d : Text) (fs : Files)
    → get path (remove_tree d fs) ≡ (if in_tree d path then none else get path fs)
unfolding get remove_tree text_eq
get-remove_tree path d [] = ground arith
get-remove_tree path d ((q, node) ∷ fs) = ground (arith, get-remove_tree path d fs)

remove_tree-NodupKeys : (d : Text) (fs : Files) → NodupKeys fs → NodupKeys (remove_tree d fs)
unfolding remove_tree
remove_tree-NodupKeys d [] u = tt
remove_tree-NodupKeys d ((q, node) ∷ fs) (fresh, u) =
    ground (arith, remove_tree-NodupKeys d fs u, get-remove_tree q d fs)

-- Each path keeps its node or loses it.
abbrev Less : Files → Files → Type 0
Less fs gs = (path : Text) → (get path gs ≡ get path fs) ⊎ (get path gs ≡ none)

Less-trans : (fs gs hs : Files) → Less fs gs → Less gs hs → Less fs hs
Less-trans fs gs hs h k path = ground (arith, h path, k path)

Gone-Less : (t : Text × Kind) (fs gs : Files) → Less fs gs → Gone fs t → Gone gs t
unfolding is_dir
Gone-Less (p, one_file) fs gs less h = ground (arith, less p)
Gone-Less (p, whole_dir) fs gs less h = ground (arith, less p)
Gone-Less (p, no_match) fs gs less h = tt

popped-Less : (p : Text) (fs : Files) → NodupKeys fs → Less fs (pop p fs)
popped-Less p fs u path = ground (arith, get-pop path p fs u)

popped_none : (p : Text) (fs : Files) → NodupKeys fs → get p (pop p fs) ≡ none
unfolding text_eq
popped_none p fs u = ground (arith, get-pop p p fs u)

absent_lem : (p : Text) (fs : Files) → path_exists p fs ≡ false → get p fs ≡ none
unfolding path_exists
absent_lem p fs h = ground arith

removed-Less : (d : Text) (fs : Files) → Less fs (remove_tree d fs)
removed-Less d fs path = ground (arith, get-remove_tree path d fs)

in_own_tree : (d : Text) → in_tree d d ≡ true
unfolding in_tree text_eq
in_own_tree d = ground arith

removed_none : (d : Text) (fs : Files) → is_dir d (remove_tree d fs) ≡ false
unfolding is_dir
removed_none d fs = ground (arith, get-remove_tree d d fs, in_own_tree d)

-- What one target does.
abbrev Step : Text × Kind → Files → Files × Bool → Type 0
Step t fs (gs, true) = Less fs gs × NodupKeys gs × Gone gs t
Step t fs (gs, false) = Unit

Step-delete_target : (t : Text × Kind) (fs : Files) → NodupKeys fs → Step t fs (delete_target t fs)
unfolding delete_target delete_file delete_dir
Step-delete_target (p, one_file) fs u = split (is_dir p fs) (path_exists p fs) refl
  where
    split :
        (d e : Bool)
        → path_exists p fs ≡ e
        → Step
            (p, one_file)
            fs
            (if◌then◌else◌ {A = Files × Bool} d (fs, false) (if e then pop p fs else fs, true))
    split true e h = tt
    split false true h =
        ((λ path. popped-Less p fs u path), pop-NodupKeys p fs u, popped_none p fs u)
    split false false h = ((λ path. inl refl), u, absent_lem p fs h)
Step-delete_target (p, whole_dir) fs u = split (is_dir p fs) refl
  where
    split :
        (d : Bool)
        → is_dir p fs ≡ d
        → Step (p, whole_dir) fs (if d then remove_tree p fs else fs, true)
    split true h =
        ((λ path. removed-Less p fs path), remove_tree-NodupKeys p fs u, removed_none p fs)
    split false h = ((λ path. inl refl), u, h)
Step-delete_target (p, no_match) fs u = ((λ path. inl refl), u, tt)

All-Gone :
    (targets : Targets) (fs gs : Files) → Less fs gs → All (Gone fs) targets → All (Gone gs) targets
All-Gone [] fs gs less h = tt
All-Gone (t ∷ targets) fs gs less (g, h) = (Gone-Less t fs gs less g, All-Gone targets fs gs less h)

-- What all targets do.
abbrev Steps : Targets → Files → Files × Bool → Type 0
Steps targets fs (gs, true) = Less fs gs × All (Gone gs) targets
Steps targets fs (gs, false) = Unit

Steps-delete_targets :
    (targets : Targets) (fs : Files) → NodupKeys fs → Steps targets fs (delete_targets targets fs)
unfolding delete_targets
Steps-delete_targets [] fs u = ((λ path. inl refl), tt)
Steps-delete_targets (t ∷ targets) fs u =
    next (delete_target t fs) (Step-delete_target t fs u) (Steps-delete_targets targets)
  where
    both :
        (gs : Files) (r : Files × Bool)
        → Less fs gs
        → Gone gs t
        → Steps targets gs r
        → Steps (t ∷ targets) fs r
    both gs (hs, true) less gone (more, all) =
        (Less-trans fs gs hs less more, (Gone-Less t gs hs more gone, all))
    both gs (hs, false) less gone h = tt

    next :
        (r : Files × Bool)
        → Step t fs r
        → ((gs : Files) → NodupKeys gs → Steps targets gs (delete_targets targets gs))
        → Steps (t ∷ targets) fs (if_running (delete_targets targets) r)
    next (gs, true) (less, v, gone) later =
        both gs (delete_targets targets gs) less gone (later gs v)
    next (gs, false) h later = tt

-- What is left of the targets, if the run ends without an exception.
abbrev pub LeftOver : Targets → Files × Bool → Type 0
LeftOver targets (gs, true) = All (Gone gs) targets
LeftOver targets (gs, false) = Unit

Steps-LeftOver :
    (targets : Targets) (fs : Files) (r : Files × Bool) → Steps targets fs r → LeftOver targets r
Steps-LeftOver targets fs (gs, true) (less, all) = all
Steps-LeftOver targets fs (gs, false) h = tt

-- A reset that is forced or agreed to, and that ends without an exception, leaves nothing at the path
-- of any of its files and no directory at the path of any of its directories.
pub reset-LeftOver :
    (places : Places) (flags : Flags) (answer : Option Text) (fs : Files)
    → NodupKeys fs
    → (flags.force || is_yes answer) ≡ true
    → LeftOver (targets_of places flags fs) (reset places flags answer fs)
unfolding reset
reset-LeftOver places flags answer fs u agreed = rw agreed (
    Steps-LeftOver (targets_of places flags fs) fs _
      (Steps-delete_targets (targets_of places flags fs) fs u))
