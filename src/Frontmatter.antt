-- ===== src/Frontmatter.antt =====
-- core/frontmatter.py: the delimiters of the YAML block, its parse, and the `updated` stamp.
pub mod Match
pub mod Laws
pub mod Stamp
pub mod Updated
pub mod Texts
pub mod Generate
use ferumind.Common.{
  ℕ, zero, suc, ◌+◌, ◌-◌, ◌*◌, ◌/◌, ◌%◌, ◌≤◌, ◌<◌, min, max, ◌≡◌, refl, sym, ap, ◌∙◌, subst, ◌≡⟨◌⟩◌,
  ◌∎, ◌≢◌, ◌↔◌, ◌⊎◌, inl, inr, Bool, true, false, not, ◌&&◌, ◌||◌, Option, none, some, List, [],
  ◌∷◌, ◌++◌, map, append-nil, append_assoc, arith, ltb, leb, ◌==◌, if◌then◌else◌, ==_iff, ==_refl,
  leb→le, ltb→lt, Bool-cases, Option-cases, ℤ, pos, negsuc, int_lt, to_nat, Kind, Error, Result, ok,
  err, ◌>>=◌, ◌>>◌, raise, raise_if, >>=-eq-ok, length, get_elem?, get_or, set, take, drop,
  length-append, take-append-drop, length-take, length-drop, take-append_length, drop-append_length,
  drop-nil, take_all, drop_all, drop-suc-drop, take_of_append, drop_of_append, drop-drop,
  take-append-lt, drop-append-lt,
}
use ferumind.Text.{Text}
use ferumind.Text.Chars.{codes, is_space, lstrip, strip, drop_while, starts_with, text_eq, is_empty}
use ferumind.Text.Chars.{utf8_length}
use ferumind.Text.Lines.{newline, split_lines, join_lines}
use ferumind.Runtime.{Runtime}
use ferumind.Yaml.{safe_load_yaml, max_yaml_tokens, max_yaml_depth}
use ferumind.Runtime.Json.{Value, null, boolean, integer, float, str, array, object, other}
use ferumind.Runtime.Json.{Values, nil, cons, Fields, end, field, Loaded, mapping, not_mapping}
use ferumind.Runtime.Json.{bad_value, JsonObject, lookup, contains}
use ferumind.Frontmatter.Match.{FrontmatterMatch, dashes, match_frontmatter}

abbrev pub max_frontmatter_bytes : ℕ
max_frontmatter_bytes = 64 * 1024

abbrev pub max_description_chars : ℕ
max_description_chars = 300

abbrev pub required_frontmatter_keys : List Text
required_frontmatter_keys = codes "id" ∷ codes "type" ∷ codes "project" ∷ []

abbrev pub protected_frontmatter_keys : List Text
protected_frontmatter_keys =
    codes "id" ∷ codes "type" ∷ codes "project" ∷ codes "created" ∷ codes "updated" ∷ []

abbrev pub allowed_statuses : List Text
allowed_statuses = codes "active" ∷ codes "gated" ∷ codes "frozen" ∷ codes "archived" ∷ []

abbrev pub allowed_edit_policies : List Text
allowed_edit_policies =
    codes "free" ∷ codes "append" ∷ codes "propose-first" ∷ codes "ask-human" ∷ []

-- _to_json_value
unfoldable mutual
  pub to_json_value : Value → Value
  to_json_value null = null
  to_json_value (boolean b) = boolean b
  to_json_value (integer n) = integer n
  to_json_value (float r) = float r
  to_json_value (str t) = str t
  to_json_value (array vs) = array (to_json_values vs)
  to_json_value (object fs) = object (to_json_fields fs)
  to_json_value (other t) = str t

  pub to_json_values : Values → Values
  to_json_values nil = nil
  to_json_values (cons v vs) = cons (to_json_value v) (to_json_values vs)

  pub to_json_fields : Fields → Fields
  to_json_fields end = end
  to_json_fields (field k v fs) = field k (to_json_value v) (to_json_fields fs)

unfoldable pub validate_status : Text → Result Text
validate_status status =
    if contains allowed_statuses status then ok status else raise Kind.frontmatter_invalid

unfoldable pub validate_edit_policy : Text → Result Text
validate_edit_policy edit_policy =
    if contains allowed_edit_policies edit_policy
    then ok edit_policy
    else raise Kind.frontmatter_invalid

-- The checks on a description that is a string.
unfoldable pub validate_description_text : Text → Result Text
validate_description_text description = do
  let stripped = strip description
  raise_if (is_empty stripped) Kind.frontmatter_invalid
  raise_if (ltb max_description_chars (length stripped)) Kind.frontmatter_invalid
  ok stripped

unfoldable pub validate_description : Value → Result Text
validate_description (str t) = validate_description_text t
validate_description _ = raise Kind.frontmatter_invalid

-- content.split at the block: the block with its delimiters, and the body
unfoldable pub extract_frontmatter_block : Text → Result (Text × Text)
extract_frontmatter_block content = do
  found ← match_frontmatter content
  elim found [ none ↦ ok ([], content) | some m ↦ ok (m.block, m.body) ]

-- isinstance(fm.get(key), str) and str(fm.get(key)).strip()
unfoldable pub has_text : JsonObject → Text → Bool
has_text fm key = elim (lookup key fm) [
  | none ↦ false
  | some v ↦ elim v [ str t ↦ not (is_empty (strip t)) | _ ↦ false ]
]

-- `updated\s*:.*$` at the start of a line: the text behind the match.
unfoldable pub match_updated : Text → Option Text
match_updated t = elim (starts_with t (codes "updated")) [
  | true ↦ elim (lstrip (drop 7 t)) [
    | [] ↦ none
    | c ∷ cs ↦ if c == b':' then some (drop_while (λ d. not (d == newline)) cs) else none
  ]
  | false ↦ none
]

-- updated_pattern.sub(line, text, count=1); the flag says that the text starts a line.
unfoldable pub sub_updated : Text → Bool → Text → Option Text
sub_updated line start [] = none
sub_updated line start (c ∷ cs) =
    let later = sub_updated line (c == newline) cs in
    elim (if start then match_updated (c ∷ cs) else none) [
      | some rest ↦ some (line ++ rest)
      | none ↦ elim later [ none ↦ none | some t ↦ some (c ∷ t) ]
    ]

-- lines.insert(i, line) for the last line that strips to `---`
unfoldable pub insert_at_close : Text → List Text → Option (List Text)
insert_at_close line [] = none
insert_at_close line (l ∷ ls) = elim (insert_at_close line ls) [
  | some ms ↦ some (l ∷ ms)
  | none ↦ if text_eq (strip l) dashes then some (line ∷ l ∷ ls) else none
]

unfoldable pub set_frontmatter_updated : Text → Text → Text
set_frontmatter_updated fm_block now =
    let line = codes "updated: " ++ now in
    elim (sub_updated line true fm_block) [
      | some t ↦ t
      | none ↦
          let lines = split_lines fm_block in
          elim (insert_at_close line lines) [ some ms ↦ join_lines ms | none ↦ join_lines lines ]
    ]

module _ (rt : Runtime) where
  unfoldable pub load_mapping : Text → Result JsonObject
  load_mapping group =
      elim (safe_load_yaml rt group max_frontmatter_bytes max_yaml_tokens max_yaml_depth) [
        | none ↦ raise Kind.frontmatter_invalid
        | some loaded ↦ elim loaded [
          | mapping d ↦ ok (map (λ (k, v). (k, to_json_value v)) d)
          | not_mapping ↦ raise Kind.frontmatter_invalid
          | bad_value ↦ raise Kind.value_error
        ]
      ]

  unfoldable pub parse_frontmatter : Text → Result JsonObject
  parse_frontmatter content = do
    found ← match_frontmatter content
    elim found [ none ↦ ok [] | some m ↦ load_mapping m.group ]

  unfoldable pub is_managed_markdown : Text → Result Bool
  is_managed_markdown content = do
    fm ← parse_frontmatter content
    ok (has_text fm (codes "id") && has_text fm (codes "type") && has_text fm (codes "project"))

  -- The stamp of a managed document.
  unfoldable pub refresh_block : Text → Result Text
  refresh_block content = do
    split ← extract_frontmatter_block content
    if is_empty split.0 then ok content else ok (set_frontmatter_updated split.0 rt.now ++ split.1)

  unfoldable pub refresh_updated_if_managed : Text → Result Text
  refresh_updated_if_managed content = do
    managed ← is_managed_markdown content
    if managed then refresh_block content else ok content
