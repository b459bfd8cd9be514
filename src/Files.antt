-- ===== src/Files.antt =====
-- The file system as the program sees it: the node at each path, and the directory listings. A path
-- is compared as it is spelt.
pub mod Listing
use browser_visit_logger.Base.{
  ℕ, Text, Bool, true, false, Option, none, some, List, [], ◌∷◌, nat_eq, contains,
}
use browser_visit_logger.Base.Dict.{Dict, get}
use browser_visit_logger.Base.Strings.{after_prefix}
use browser_visit_logger.Paths.{path_join, sep}
use mathlib.Core.List.{filter_map}
use mathlib.Core.Bool.{cond}

-- A regular file with its content and its permission bits, or a directory.
pub data Node : Type 0 where
  file : Text → ℕ → Node
  dir : Node

abbrev pub Files : Type 0
Files = Dict Node

-- `os.path.exists`
unfoldable pub path_exists : Text → Files → Bool
unfolding get
path_exists path fs = elim (get path fs) [ none ↦ false | some node ↦ true ]

-- `os.path.isdir`
unfoldable pub is_dir : Text → Files → Bool
unfolding get
is_dir path fs = elim (get path fs) [
  | none ↦ false
  | some node ↦ elim node [ file content mode ↦ false | dir ↦ true ]
]

-- `os.path.isfile`
unfoldable pub is_file : Text → Files → Bool
unfolding get
is_file path fs = elim (get path fs) [
  | none ↦ false
  | some node ↦ elim node [ file content mode ↦ true | dir ↦ false ]
]

-- What a file holds; nothing where there is no file.
unfoldable pub content_of : Text → Files → Text
unfolding get
content_of path fs = elim (get path fs) [
  | none ↦ []
  | some node ↦ elim node [ file content mode ↦ content | dir ↦ [] ]
]

-- A path right below the directory gives its last part.
abbrev only_name : Text → Option Text
only_name [] = none
only_name (c ∷ name) = cond (contains (c ∷ name) sep) none (some (c ∷ name))

unfoldable listed_name : Text → Text × Node → Option Text
unfolding after_prefix path_join nat_eq
listed_name d (path, node) = elim (after_prefix (path_join d []) path) [
  | none ↦ none
  | some name ↦ only_name name
]

-- `os.listdir(d)`
unfoldable pub list_dir : Text → Files → List Text
unfolding listed_name filter_map
list_dir d fs = filter_map (listed_name d) fs
