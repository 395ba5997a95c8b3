-- ===== src/Proposals/FullMode.antt =====
-- core/patch_writes.py: the content of a coarse patch, and the frontmatter that it may bring.
use ferumind.Common.{
  ℕ, Bool, true, false, not, ◌&&◌, ◌||◌, Option, none, some, List, [], ◌∷◌, ◌++◌, ◌==◌,
  if◌then◌else◌, Kind, Result, ok, ◌>>=◌, ◌>>◌, raise, raise_if, translate, length, drop,
}
use ferumind.Text.{Text}
use ferumind.Text.Chars.{codes, text_eq, is_empty, starts_with, take_while, drop_while}
use ferumind.Text.Lines.{newline}
use ferumind.Runtime.{Runtime}
use ferumind.Runtime.Json.{JsonObject, null, str, lookup}
use ferumind.Frontmatter.{
  required_frontmatter_keys, extract_frontmatter_block, has_text, is_managed_markdown,
  parse_frontmatter, set_frontmatter_updated, validate_description,
}
use ferumind.Documents.{frontmatter_str}

-- PatchMode
pub data PatchMode : Type 0 where
  body full : PatchMode

-- [ \t]
abbrev pub is_blank : ℕ → Bool
is_blank c = c == 32 || c == 9

-- [^\r\n]
abbrev pub in_line : ℕ → Bool
in_line c = not (c == newline) && not (c == 13)

-- `$` of re.MULTILINE
abbrev pub at_line_end : Text → Bool
at_line_end [] = true
at_line_end (c ∷ cs) = c == newline

-- `:[^\r\n]*$`, with the text in front of it
abbrev pub match_value : Text → Text → Option Text
match_value front [] = none
match_value front (c ∷ cs) =
    if (c == b':') && at_line_end (drop_while in_line cs)
    then some (front ++ c ∷ take_while in_line cs)
    else none

-- The match of the pattern of a field at a position.
unfoldable pub match_field : Text → Text → Option Text
unfolding starts_with take_while drop_while
match_field key text =
    if starts_with text key
    then match_value (key ++ take_while is_blank (drop (length key) text))
        (drop_while is_blank (drop (length key) text))
    else none

-- The first match at the start of a line; the flag says that the text starts one.
unfoldable pub search_field : Text → Bool → Text → Option Text
unfolding match_field
search_field key at_start [] = if at_start then match_field key [] else none
search_field key at_start (c ∷ cs) =
    let later = search_field key (c == newline) cs in
    elim (if at_start then match_field key (c ∷ cs) else none) [
      | some line ↦ some line
      | none ↦ later
    ]

-- _frontmatter_field_line
unfoldable pub frontmatter_field_line : Text → Text → Result (Option Text)
unfolding extract_frontmatter_block search_field
frontmatter_field_line content key = do
  split ← extract_frontmatter_block content
  ok (search_field key true split.0)

-- Every key has a text that is not blank.
unfoldable pub check_required : JsonObject → List Text → Result (Unit {0})
unfolding has_text
check_required new_fm [] = ok tt
check_required new_fm (key ∷ keys) =
    raise_if (not (has_text new_fm key)) Kind.frontmatter_required >> check_required new_fm keys

-- isinstance(existing_value, str) and existing_value != str(new_fm[key])
unfoldable pub differs : JsonObject → JsonObject → Text → Bool
unfolding lookup frontmatter_str text_eq
differs existing_fm new_fm key = elim (lookup key existing_fm) [
  | none ↦ false
  | some value ↦ elim value [
    | str text ↦ not (text_eq text (frontmatter_str new_fm key []))
    | _ ↦ false
  ]
]

unfoldable pub check_identity : JsonObject → JsonObject → List Text → Result (Unit {0})
unfolding differs
check_identity existing_fm new_fm [] = ok tt
check_identity existing_fm new_fm (key ∷ keys) =
    raise_if (differs existing_fm new_fm key) Kind.frontmatter_required
    >> check_identity existing_fm new_fm keys

-- The lines of a field in the two contents are there, and the same.
abbrev pub check_lines : Option Text → Option Text → Result (Unit {0})
check_lines none new_line = raise Kind.frontmatter_required
check_lines (some existing_line) none = raise Kind.frontmatter_required
check_lines (some existing_line) (some new_line) =
    raise_if (not (text_eq new_line existing_line)) Kind.frontmatter_protected

unfoldable pub check_stamp : JsonObject → JsonObject → Text → Text → Text → Result (Unit {0})
unfolding has_text frontmatter_str frontmatter_field_line text_eq
check_stamp existing_fm new_fm existing_content new_content key = do
  raise_if (not (has_text existing_fm key)) Kind.frontmatter_required
  raise_if (not (has_text new_fm key)) Kind.frontmatter_required
  raise_if (not (text_eq (frontmatter_str new_fm key []) (frontmatter_str existing_fm key [])))
      Kind.frontmatter_protected
  existing_line ← frontmatter_field_line existing_content key
  new_line ← frontmatter_field_line new_content key
  check_lines existing_line new_line

-- new_fm.get("description")
unfoldable pub description_of : JsonObject → Result Text
unfolding lookup validate_description
description_of new_fm = elim (lookup (codes "description") new_fm) [
  | none ↦ validate_description null
  | some value ↦ validate_description value
]

unfoldable pub validate_full_mode_frontmatter :
    JsonObject → JsonObject → Text → Text → Text → Result (Unit {0})
unfolding check_required description_of check_identity check_stamp frontmatter_str
validate_full_mode_frontmatter existing_fm new_fm project_key existing_content new_content = do
  check_required new_fm required_frontmatter_keys
  translate Kind.frontmatter_required (description_of new_fm)
  check_identity existing_fm new_fm required_frontmatter_keys
  check_stamp existing_fm new_fm existing_content new_content (codes "created")
  check_stamp existing_fm new_fm existing_content new_content (codes "updated")
  raise_if (not (text_eq (frontmatter_str new_fm (codes "project") []) project_key))
      Kind.frontmatter_required

module _ (rt : Runtime) where
  -- current_content and is_managed_markdown(current_content)
  abbrev pub is_managed_content : Text → Result Bool
  is_managed_content [] = ok false
  is_managed_content (c ∷ cs) = is_managed_markdown rt (c ∷ cs)

  -- A full replacement of a managed document.
  unfoldable pub replace_managed : Text → Text → Text → Result Text
  unfolding parse_frontmatter validate_full_mode_frontmatter extract_frontmatter_block
      set_frontmatter_updated
  replace_managed project_key current_content new_content = do
    existing_fm ← parse_frontmatter rt current_content
    new_fm ← parse_frontmatter rt new_content
    validate_full_mode_frontmatter existing_fm new_fm project_key current_content new_content
    split ← extract_frontmatter_block new_content
    ok (set_frontmatter_updated split.0 rt.now ++ split.1)

  -- The content of a full replacement, of a managed document or of another one.
  abbrev pub replace_if : Bool → Text → Text → Text → Result Text
  replace_if true project_key current_content new_content =
      replace_managed project_key current_content new_content
  replace_if false project_key current_content new_content = ok new_content

  unfoldable pub resolve_patch_content : PatchMode → Text → Text → Text → Result Text
  unfolding extract_frontmatter_block set_frontmatter_updated is_managed_markdown replace_managed
  resolve_patch_content body project_key current_content new_content = do
    split ← extract_frontmatter_block current_content
    ok (
        if is_empty split.0
        then new_content
        else set_frontmatter_updated split.0 rt.now ++ new_content)
  resolve_patch_content full project_key current_content new_content = do
    managed ← is_managed_content current_content
    replace_if managed project_key current_content new_content
