-- ===== src/ReadingList/Run.antt =====
-- `_default_output_for`, the defaults of `_parse_args`, and `main` behind the parser. The database is
-- missing or read as it stands; what is written is the encoded text.
pub mod Output
use browser_visit_logger.Base.{
  ℕ, Text, Bool, true, false, Option, none, some, List, [], ◌∷◌, ◌++◌, ◌==◌, text_eq, is_empty,
  keep, not, ◌&&◌, if◌then◌else◌, ◌||◌, map,
}
use browser_visit_logger.Base.Dict.{get, put}
use browser_visit_logger.Base.Strings.{codes, split, join}
use browser_visit_logger.Database.{Db}
use browser_visit_logger.Files.{Files, Node, file, dir, is_dir, path_exists}
use browser_visit_logger.Paths.{path_join, sep, dirname, basename}
use browser_visit_logger.ReadingList.Html.{render_html}
use browser_visit_logger.ReadingList.Markdown.{render_markdown}
use browser_visit_logger.ReadingList.Query.{Row, fetch_rows}

pub data Format : Type 0 where
  html : Format
  markdown : Format

pub record Args : Type 0 where
  pub format : Format
  pub output : Option Text

-- `_EXTENSIONS[fmt]`
abbrev extension : Format → Text
extension html = codes "html"
extension markdown = codes "md"

-- `_default_output_for`
unfoldable pub default_output_for : Text → Format → Text
default_output_for output_dir format =
    path_join output_dir (codes "reading_list." ++ extension format)

-- `args.output` behind the parser.
unfoldable pub output_path : Text → Args → Text
output_path output_dir args = elim args.output [
  | none ↦ default_output_for output_dir args.format
  | some path ↦ path
]

-- The paths of a directory and of the ones above it, the longest first; the root always stands.
abbrev above : List Text → List Text → List (List Text)
above kept [] = []
above kept (part ∷ parts) = above (kept ++ part ∷ []) parts ++ (kept ++ part ∷ []) ∷ []

abbrev is_component : Text → Bool
is_component name = not (is_empty name || name == codes ".")

unfoldable pub directories : Text → List Text
directories path =
    keep (λ p. is_component (basename p))
      (map (λ parts. join (sep ∷ []) parts) (above [] (split sep path)))

-- The recursion of `os.makedirs(…, exist_ok=True)`; `none` where it raises.
unfoldable pub make_each : List Text → Files → Option Files
make_each [] fs = some fs
make_each (p ∷ paths) fs =
    let rest = make_each paths fs in
    if is_dir p fs
    then some fs
    else if path_exists p fs
    then none
    else elim rest [ none ↦ none | some made ↦ some (put p dir made) ]

-- `os.makedirs(path, exist_ok=True)`
unfoldable pub makedirs : Text → Files → Option Files
makedirs path fs = if is_empty path then none else make_each (directories path) fs

abbrev mode_of : Option Node → ℕ
mode_of none = 0o644
mode_of (some (file content mode)) = mode
mode_of (some dir) = 0o644

-- `with open(path, 'w') as f: f.write(text)`, which may write to every file
unfoldable pub write_text : Text → Text → Files → Option Files
write_text path text fs =
    if is_dir path fs || is_empty (basename path)
    then none
    else some (put path (file text (mode_of (get path fs))) fs)

-- From `os.makedirs` on; the exit code is missing where the code raises.
unfoldable pub write_list : Text → Text → Files → Option ℕ × Files
write_list path text fs = elim (makedirs (dirname path) fs) [
  | none ↦ (none, fs)
  | some made ↦ elim (write_text path text made) [
    | none ↦ (none, made)
    | some written ↦ (some 0, written)
  ]
]

module _ (local_time : Text → Option Text) (style : Text) where
  -- `_RENDERERS[args.format]`
  unfoldable pub render : Format → List Row × List Row → Text
  render html (skimmed, unskimmed) = render_html local_time style skimmed unskimmed
  render markdown (skimmed, unskimmed) = render_markdown local_time skimmed unskimmed

  -- `main`
  unfoldable pub main : Text → Args → Option Db → Files → Option ℕ × Files
  main output_dir args none fs = (some 1, fs)
  main output_dir args (some db) fs =
      write_list (output_path output_dir args) (render args.format (fetch_rows db)) fs
