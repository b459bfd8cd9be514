-- ===== src/ReadingList/Run/Output.antt =====
-- What a run leaves in the file system.
use browser_visit_logger.Base.{
  ℕ, Text, Bool, true, false, Option, none, some, List, [], ◌∷◌, ◌==◌, text_eq, is_empty, ◌≡◌, refl,
  ◌∙◌, arith, ◌⊎◌, inl, inr, contains, ◌||◌, if◌then◌else◌, Option-cases, nat_eq,
}
use browser_visit_logger.Base.Dict.{get, put, get-put}
use browser_visit_logger.Database.{Db}
use browser_visit_logger.Files.{Files, file, dir, is_dir, path_exists, content_of}
use browser_visit_logger.Paths.{dirname, basename}
use browser_visit_logger.ReadingList.Query.{fetch_rows}
use browser_visit_logger.ReadingList.Run.{
  Args, main, output_path, render, make_each, makedirs, directories, write_text, write_list,
}

-- Every path is as before, or a directory that is new.
abbrev pub Grown : Files → Files → Type 0
Grown fs v = (p : Text) → (get p v ≡ get p fs) ⊎ ((get p fs ≡ none) × (get p v ≡ some dir))

-- A file stands where a directory is wanted.
abbrev pub Blocked : List Text → Files → Type 0
Blocked paths fs =
    (p : Text) × (contains paths p ≡ true) × (path_exists p fs ≡ true) × (is_dir p fs ≡ false)

abbrev Made : List Text → Files → Option Files → Type 0
Made paths fs none = Blocked paths fs
Made paths fs (some made) = Grown fs made

get-missing : (p : Text) (fs : Files) → path_exists p fs ≡ false → get p fs ≡ none
unfolding path_exists
get-missing p fs h = elim (Option-cases (get p fs)) [
  | inl absent ↦ absent
  | inr (node, there) ↦ absurd (ground arith)
]

put-Grown :
    (p : Text) (fs made : Files) → get p fs ≡ none → Grown fs made → Grown fs (put p dir made)
put-Grown p fs made absent grown q = elim (text_eq.dec p q) [
  | yes same ↦ inr (ground arith, get-put q p dir made ∙ ground arith)
  | no other ↦ ground (arith, get-put q p dir made, grown q)
]

make_each_lem : (paths : List Text) (fs : Files) → Made paths fs (make_each paths fs)
unfolding make_each
make_each_lem [] fs = λ p. inl refl
make_each_lem (p ∷ paths) fs =
    step (is_dir p fs) refl (path_exists p fs) refl (make_each paths fs) (make_each_lem paths fs)
  where
    step :
        (a : Bool)
        → is_dir p fs ≡ a
        → (b : Bool) → path_exists p fs ≡ b
        → (rest : Option Files) → Made paths fs rest
        → Made (p ∷ paths) fs (
            if a
            then some fs
            else if b
            then none
            else elim rest [ none ↦ none | some made ↦ some (put p dir made) ])
    step true e b g rest h = λ q. inl refl
    step false e true g rest h = (p, ground arith, g, e)
    step false e false g none (q, listed, there, plain) = (q, ground arith, there, plain)
    step false e false g (some made) h = put-Grown p fs made (get-missing p fs g) h

-- Nothing can be written.
abbrev pub Refused : Text → Files → Files → Type 0
Refused output fs v =
    (is_empty (dirname output) ≡ true)
    ⊎ (Blocked (directories (dirname output)) fs
        ⊎ ((is_dir output v || is_empty (basename output)) ≡ true))

-- The files behind a run with a database.
abbrev pub Delivered : Text → Text → Files → Option ℕ × Files → Type 0
Delivered output text fs (none, v) = Refused output fs v × Grown fs v
Delivered output text fs (some code, v) =
    (code ≡ 0)
    × (is_empty (dirname output) ≡ false)
    × (content_of output v ≡ text)
    × ((p : Text)
        → (p == output) ≡ false
        → (get p v ≡ get p fs) ⊎ ((get p fs ≡ none) × (get p v ≡ some dir)))

abbrev pub Ran : Text → (Db → Text) → Option Db → Files → Option ℕ × Files → Type 0
Ran output text none fs r = r ≡ (some 1, fs)
Ran output text (some db) fs r = Delivered output (text db) fs r

module _ (output text : Text) (fs : Files) where
  written_lem :
      (made : Files) (mode : ℕ)
      → Grown fs made
      → is_empty (dirname output) ≡ false
      → Delivered output text fs (some 0, put output (file text mode) made)
  unfolding content_of
  written_lem made mode grown parted = (
    refl,
    parted,
    ground (arith, get-put output output (file text mode) made),
    λ p other. ground (arith, get-put p output (file text mode) made, grown p),
  )

  Delivered-write_list : Delivered output text fs (write_list output text fs)
  unfolding write_list makedirs write_text
  Delivered-write_list =
      start (is_empty (dirname output)) refl (make_each (directories (dirname output)) fs)
        (make_each_lem (directories (dirname output)) fs)
    where
      open_it :
          (made : Files) (mode : ℕ)
          → Grown fs made
          → is_empty (dirname output) ≡ false
          → (b : Bool) → (is_dir output made || is_empty (basename output)) ≡ b
          → Delivered output text fs
              (elim (if◌then◌else◌ {A = Option Files} b none
                (some (put output (file text mode) made))) [
                  | none ↦ (none, made)
                  | some written ↦ (some 0, written)
                ])
      open_it made mode grown parted true e = (inr (inr e), grown)
      open_it made mode grown parted false e = written_lem made mode grown parted

      start :
          (b : Bool)
          → is_empty (dirname output) ≡ b
          → (o : Option Files) → Made (directories (dirname output)) fs o
          → Delivered output text fs (elim (if b then none else o) [
            | none ↦ (none, fs)
            | some made ↦ elim (write_text output text made) [
              | none ↦ (none, made)
              | some written ↦ (some 0, written)
            ]
          ])
      start true e o h = (inl e, λ p. inl refl)
      start false e none h = (inr (inl h), λ p. inl refl)
      start false e (some made) h =
          open_it made _ h e (is_dir output made || is_empty (basename output)) refl

-- A run without a database returns 1 and changes nothing. Any other run either returns 0, with an
-- output that has a directory part and holds the rendering of the selected visits, or raises, since
-- the output has no directory part, a file stands where a directory is wanted, or the output is a
-- directory or ends with a slash; and every other path is as before or a directory that is new.
pub main_lem :
    (local_time : Text → Option Text) (style output_dir : Text) (args : Args) (db : Option Db)
    (fs : Files)
    → Ran
        (output_path output_dir args)
        (λ d. render local_time style args.format (fetch_rows d))
        db
        fs
        (main local_time style output_dir args db fs)
unfolding main
main_lem local_time style output_dir args none fs = refl
main_lem local_time style output_dir args (some d) fs =
    Delivered-write_list (output_path output_dir args)
      (render local_time style args.format (fetch_rows d)) fs
