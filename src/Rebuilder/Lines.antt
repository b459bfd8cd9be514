-- ===== src/Rebuilder/Lines.antt =====
-- What a line of a log is: `_parse_action_fields`, `_is_result_payload`, and the tests in the loop of
-- `_replay_one_file`.
use browser_visit_logger.Base.{
  Text, Bool, ◌||◌, Option, none, some, List, [], ◌∷◌, ◌==◌, text_eq, if◌then◌else◌, is_empty,
}
use browser_visit_logger.Base.Strings.{codes, split, tab, starts_with}
use browser_visit_logger.Names.{looks_like_uuid}

pub record Action : Type 0 where
  pub timestamp : Text
  pub url : Text
  pub title : Text
  pub tag : Text
  pub filename : Text

-- The fields behind the record id: three for a visit, four for of_interest, five with a file name.
unfoldable pub parse_action_fields : List Text → Option Action
parse_action_fields (timestamp ∷ url ∷ title ∷ []) =
    some (record { timestamp = timestamp; url = url; title = title; tag = []; filename = [] })
parse_action_fields (timestamp ∷ url ∷ title ∷ tag ∷ []) =
    some (record { timestamp = timestamp; url = url; title = title; tag = tag; filename = [] })
parse_action_fields (timestamp ∷ url ∷ title ∷ tag ∷ filename ∷ []) =
    some
      (record { timestamp = timestamp; url = url; title = title; tag = tag; filename = filename })
parse_action_fields _ = none

unfoldable pub is_result_payload : Text → Bool
unfolding text_eq
is_result_payload payload = payload == codes "success" || starts_with payload (codes "error: ")

-- The cases that the loop tells apart. A result says whether its payload is "success".
pub data Line : Type 0 where
  blank : Line
  malformed : Line
  result : Text → Bool → Line
  action : Text → Action → Line

abbrev action_line : Text → Option Action → Line
action_line id none = malformed
action_line id (some a) = action id a

line_of_fields : Text → List Text → Line
unfolding parse_action_fields is_result_payload text_eq
line_of_fields id (payload ∷ []) =
    if is_result_payload payload
    then result id (payload == codes "success")
    else action_line id (parse_action_fields (payload ∷ []))
line_of_fields id rest = action_line id (parse_action_fields rest)

line_of_parts : List Text → Line
unfolding line_of_fields looks_like_uuid
line_of_parts [] = malformed
line_of_parts (id ∷ rest) = if looks_like_uuid id then line_of_fields id rest else malformed

unfoldable pub classify : Text → Line
unfolding line_of_parts split
classify line = if is_empty line then blank else line_of_parts (split tab line)
