-- ===== src/Paths.antt =====
-- The functions of `os.path` that the program calls, on POSIX paths as they are spelt.
pub mod Subdirs
use browser_visit_logger.Base.{
  ℕ, Text, Bool, true, false, not, ◌||◌, List, [], ◌∷◌, ◌++◌, ◌==◌, nat_eq, text_eq, if◌then◌else◌,
  is_empty, Option, some, none,
}
use mathlib.Core.List.{reverse}
use browser_visit_logger.Base.Strings.{codes, split, join, starts_with, rstrip}

abbrev pub sep : ℕ
sep = b'/'

unfoldable ends_with_sep : Text → Bool
unfolding nat_eq
ends_with_sep [] = false
ends_with_sep (c ∷ []) = c == sep
ends_with_sep (c ∷ d ∷ path) = ends_with_sep (d ∷ path)

-- `os.path.isabs`
unfoldable pub is_abs : Text → Bool
unfolding nat_eq
is_abs [] = false
is_abs (c ∷ path) = c == sep

-- `os.path.join(a, b)`
unfoldable pub path_join : Text → Text → Text
unfolding is_abs ends_with_sep
path_join a b =
    if is_abs b then b else if is_empty a || ends_with_sep a then a ++ b else a ++ (sep ∷ b)

last_part : List Text → Text
last_part [] = []
last_part (part ∷ []) = part
last_part (part ∷ next ∷ parts) = last_part (next ∷ parts)

-- `os.path.basename`
unfoldable pub basename : Text → Text
unfolding split last_part
basename path = last_part (split sep path)

-- `..` drops the last component, unless there is none or it is itself a `..`.
climb : Bool → List Text → List Text
unfolding text_eq
climb true [] = []
climb false [] = codes ".." ∷ []
climb absolute (last ∷ kept) = if last == codes ".." then codes ".." ∷ last ∷ kept else kept

-- The components that `os.path.normpath` keeps, the last one first.
normal_parts : Bool → List Text → List Text → List Text
unfolding text_eq climb
normal_parts absolute [] kept = kept
normal_parts absolute (part ∷ parts) kept = normal_parts absolute parts (
    if is_empty part || part == codes "."
    then kept
    else if not (part == codes "..")
    then part ∷ kept
    else climb absolute kept)

initial_slashes : Text → Text
initial_slashes path =
    if starts_with path (codes "///")
    then codes "/"
    else if starts_with path (codes "//")
    then codes "//"
    else if starts_with path (codes "/")
    then codes "/"
    else []

-- `os.path.normpath`
unfoldable pub normpath : Text → Text
unfolding is_abs normal_parts initial_slashes split join
normpath path =
    let parts = reverse (normal_parts (is_abs path) (split sep path) []) in
    let normal = initial_slashes path ++ join (sep ∷ []) parts in
    if is_empty normal then codes "." else normal

-- Python's `or` between a text that may be missing and a default.
abbrev pub or_default : Option Text → Text → Text
or_default none d = d
or_default (some []) d = d
or_default (some (c ∷ t)) d = c ∷ t

init_parts : List Text → List Text
init_parts [] = []
init_parts (part ∷ []) = []
init_parts (part ∷ next ∷ parts) = part ∷ init_parts (next ∷ parts)

-- `os.path.dirname`: the slashes behind the head go, unless it has nothing else.
unfoldable pub dirname : Text → Text
unfolding split init_parts join rstrip
dirname path =
    let parts = init_parts (split sep path) in
    let head = join (sep ∷ []) parts in
    let stripped = rstrip sep head in
    if is_empty parts then [] else if is_empty stripped then head ++ sep ∷ [] else stripped
