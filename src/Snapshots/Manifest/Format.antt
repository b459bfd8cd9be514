-- ===== src/Snapshots/Manifest/Format.antt =====
-- A line of the manifest can be read back.
use browser_visit_logger.Base.{
  Text, ℕ, List, [], ◌∷◌, nat_eq, Bool, ◌++◌, ◌≡◌, arith, refl, All, ◌∙◌, some, Option, none, ap,
  sym,
}
use browser_visit_logger.Snapshots.Errors.{tsv_sanitise}
use browser_visit_logger.Base.Strings.{replace, join, tab, newline, carriage_return, codes, split}
use browser_visit_logger.Base.Strings.Laws.{
  Lacks, split-join, contains-append, Lacks-replace, Lacks-replaced,
}
use browser_visit_logger.Snapshots.Manifest.{
  lookup_in, tag_name, Info, manifest_row, info_of, wanted,
}
use browser_visit_logger.Database.{Tag, Db, read, skimmed, Event, events}
use browser_visit_logger.Base.Table.{first}

-- A sanitised text has neither of the characters that shape the file.
tsv_sanitise-Lacks : (s : Text) → Lacks tab (tsv_sanitise s) × Lacks newline (tsv_sanitise s)
unfolding tsv_sanitise
tsv_sanitise-Lacks s = (
  Lacks-replace tab carriage_return [] (replace newline (codes " ") (replace tab (codes " ") s))
      refl
      (Lacks-replace tab newline (codes " ") (replace tab (codes " ") s) (ground arith)
        (Lacks-replaced tab (codes " ") s (ground arith))),
  Lacks-replace newline carriage_return [] (replace newline (codes " ") (replace tab (codes " ") s))
      refl (Lacks-replaced newline (codes " ") (replace tab (codes " ") s) (ground arith)),
)

Lacks-join :
    (c d : ℕ) (parts : List Text)
    → Lacks c (d ∷ [])
    → All (Lacks c) parts
    → Lacks c (join (d ∷ []) parts)
unfolding join
Lacks-join c d [] n h = refl
Lacks-join c d (p ∷ []) n h = h.0
Lacks-join c d (p ∷ q ∷ parts) n h =
    contains-append c p ((d ∷ []) ++ join (d ∷ []) (q ∷ parts))
    ∙ rw
        (
          h.0,
          contains-append c (d ∷ []) (join (d ∷ []) (q ∷ parts)),
          n,
          Lacks-join c d (q ∷ parts) n h.1,
        )
        refl

tag_name-Lacks : (tag : Tag) → Lacks tab (tag_name tag) × Lacks newline (tag_name tag)
tag_name-Lacks read = (ground arith, ground arith)
tag_name-Lacks skimmed = (ground arith, ground arith)

abbrev found_tag : Option Info → Text
found_tag none = []
found_tag (some info) = info.tag

lookup_in_tag :
    (by_name : Bool) (filename directory : Text) (tag : Tag) (db : Db) (info : Info)
    → lookup_in by_name filename directory tag db ≡ some info
    → info.tag ≡ tag_name tag
unfolding lookup_in
lookup_in_tag by_name filename directory tag db info h =
    one (first (wanted by_name filename directory) (events tag db)) h
  where
    one : (o : Option Event) → info_of tag db.visits o ≡ some info → info.tag ≡ tag_name tag
    one none e = ground arith
    one (some x) e = ap found_tag (sym e)

-- A row that the manifest writes for an event that is found, whatever its title, url and file name
-- hold, is one line of the file, and splitting the line at the tabs gives the row's fields back.
pub manifest_line_reads_back :
    (by_name : Bool) (filename directory : Text) (tag : Tag) (db : Db) (info : Info)
    → lookup_in by_name filename directory tag db ≡ some info
    → (split tab (join (tab ∷ []) (manifest_row filename info)) ≡ manifest_row filename info)
      × Lacks newline (join (tab ∷ []) (manifest_row filename info))
manifest_line_reads_back by_name filename directory tag db info h = (
  split-join tab (tsv_sanitise filename)
      (info.tag
        ∷ tsv_sanitise info.timestamp
        ∷ tsv_sanitise info.url
        ∷ tsv_sanitise info.title
        ∷ [])
      (
        (clean filename).0,
        (tagged.0, ((clean info.timestamp).0, ((clean info.url).0, ((clean info.title).0, tt)))),
      ),
  Lacks-join newline tab (manifest_row filename info) (ground arith) (
    (clean filename).1,
    (tagged.1, ((clean info.timestamp).1, ((clean info.url).1, ((clean info.title).1, tt)))),
  ),
)
  where
    clean : (s : Text) → Lacks tab (tsv_sanitise s) × Lacks newline (tsv_sanitise s)
    clean s = tsv_sanitise-Lacks s

    tagged : Lacks tab info.tag × Lacks newline info.tag
    tagged = rw (lookup_in_tag by_name filename directory tag db info h) (tag_name-Lacks tag)
