-- ===== src/Snapshots/Seal/Apart.antt =====
-- The log and the manifest of a directory are different files.
use browser_visit_logger.Base.{
  [], ◌∷◌, text_eq, true, false, none, some, Option, Text, ℕ, ◌==◌, ◌++◌, ◌≡◌, Bool, refl, ◌∙◌,
  arith, if◌then◌else◌, ap, sym, append_assoc,
}
use browser_visit_logger.Base.Dict.{get, pop, Dict, put, get-put}
use browser_visit_logger.Paths.{path_join}
use browser_visit_logger.Names.{log_filename_for}
use browser_visit_logger.Snapshots.Manifest.{manifest_filename, chmod, append_to}
use browser_visit_logger.Files.{Files, Node, file, dir}
use browser_visit_logger.Base.Strings.{codes}
use browser_visit_logger.Snapshots.Seal.{move_file}

-- The last character of a text.
last_code : Text → ℕ
last_code [] = 0
last_code (c ∷ []) = c
last_code (c ∷ d ∷ s) = last_code (d ∷ s)

last_code-append : (s t : Text) (c : ℕ) → last_code (s ++ (c ∷ t)) ≡ last_code (c ∷ t)
unfolding last_code
last_code-append [] t c = refl
last_code-append (d ∷ []) t c = refl
last_code-append (d ∷ e ∷ s) t c = last_code-append (e ∷ s) t c

last_code-path_join : (a t : Text) (c : ℕ) → last_code (path_join a (c ∷ t)) ≡ last_code (c ∷ t)
unfolding path_join last_code
last_code-path_join a t c = one _ _
  where
    one :
        (x y : Bool)
        → last_code (if x then c ∷ t else if y then a ++ (c ∷ t) else a ++ (b'/' ∷ c ∷ t))
          ≡ last_code (c ∷ t)
    one true y = refl
    one false true = last_code-append a t c
    one false false = last_code-append a (c ∷ t) b'/'

last_code-log : (a date : Text) → last_code (path_join a (log_filename_for date)) ≡ b'g'
unfolding last_code
last_code-log a date =
    last_code-path_join a (codes "rowser-visits-" ++ (date ++ codes ".log")) b'b'
    ∙ ap last_code (sym (append_assoc (codes "browser-visits-") date (codes ".log")))
    ∙ last_code-append (codes "browser-visits-" ++ date) (codes "log") b'.'

last_code-manifest : (a : Text) → last_code (path_join a manifest_filename) ≡ b'v'
unfolding last_code
last_code-manifest a = last_code-path_join a _ _ ∙ refl

-- A log is never the manifest.
pub log_ne_manifest :
    (a b date : Text)
    → (path_join a (log_filename_for date) == path_join b manifest_filename) ≡ false
log_ne_manifest a b date =
    elim (text_eq.dec (path_join a (log_filename_for date)) (path_join b manifest_filename)) [
      | yes same ↦
          absurd (omega (arith, last_code-log a date, last_code-manifest b, ap last_code same))
      | no other ↦ ground arith
    ]

pub get-pop_other {ℓ} :
    {V : Type ℓ} (j k : Text) (d : Dict V) → (k == j) ≡ false → get j (pop k d) ≡ get j d
unfolding get pop
get-pop_other j k [] h = refl
get-pop_other j k ((i, w) ∷ d) h = ground (arith, get-pop_other j k d)

pub get-put_other {ℓ} :
    {V : Type ℓ} (j k : Text) (v : V) (d : Dict V) → (k == j) ≡ false → get j (put k v d) ≡ get j d
get-put_other j k v d h = get-put j k v d ∙ rw h refl

pub get-chmod_other :
    (j k : Text) (bits : ℕ) (fs : Files) → (k == j) ≡ false → get j (chmod k bits fs) ≡ get j fs
get-chmod_other j k bits fs h = one (get k fs)
  where
    one :
        (o : Option Node)
        → get j (elim o [
          | none ↦ fs
          | some node ↦ elim node [ file content mode ↦ put k (file content bits) fs | dir ↦ fs ]
        ])
          ≡ get j fs
    one none = refl
    one (some (file content mode)) = get-put_other j k (file content bits) fs h
    one (some dir) = refl

pub get-append_to_other :
    (j k text : Text) (fs : Files) → (k == j) ≡ false → get j (append_to k text fs) ≡ get j fs
get-append_to_other j k text fs h = one (get k fs)
  where
    one :
        (o : Option Node)
        → get j (elim o [
          | none ↦ put k (file text 0o644) fs
          | some node ↦ elim node [
            | file content mode ↦ put k (file (content ++ text) mode) fs
            | dir ↦ fs
          ]
        ])
          ≡ get j fs
    one none = get-put_other j k (file text 0o644) fs h
    one (some (file content mode)) = get-put_other j k (file (content ++ text) mode) fs h
    one (some dir) = refl

pub get-move_file_other :
    (j src dst : Text) (fs : Files)
    → (src == j) ≡ false
    → (dst == j) ≡ false
    → get j (move_file src dst fs) ≡ get j fs
get-move_file_other j src dst fs h k = one (get src fs)
  where
    one :
        (o : Option Node)
        → get j (elim o [ none ↦ fs | some node ↦ put dst node (pop src fs) ]) ≡ get j fs
    one none = refl
    one (some node) = get-put_other j dst node (pop src fs) k ∙ get-pop_other j src fs h
