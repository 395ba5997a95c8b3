-- ===== src/DocumentMap/Build.antt =====
-- core/document_map.py: `build_document_map` and `section_target`.
pub mod Laws
use ferumind.Common.{
  ℕ, zero, suc, ◌+◌, ◌-◌, ◌*◌, ◌/◌, ◌%◌, ◌≤◌, ◌<◌, min, max, ◌≡◌, refl, sym, ap, ap₂, ◌∙◌, subst,
  ◌≡⟨◌⟩◌, ◌∎, ◌≢◌, ◌↔◌, ◌⊎◌, inl, inr, Bool, true, false, not, ◌&&◌, ◌||◌, Option, none, some, List,
  [], ◌∷◌, ◌++◌, map, append-nil, append_assoc, arith, ltb, leb, ◌==◌, if◌then◌else◌, ==_iff,
  ==_refl, leb→le, ltb→lt, Bool-cases, Option-cases, if_elim, is_none, ℤ, pos, negsuc, int_lt,
  to_nat, Kind, Error, Result, ok, err, ◌>>=◌, ◌>>◌, raise, raise_if, raise_at, raise_at_if,
  translate, >>=-eq-ok, length, get_elem?, get_or, set, take, drop, length-append, take-append-drop,
  length-take, length-drop, take-append_length, drop-append_length, drop-nil, take-nil, take_all,
  drop_all, drop-suc-drop, take_of_append, drop_of_append, drop-drop, take-append-lt,
  drop-append-lt, filter, get_last?, run_length, run_length-le, filter-append,
}
use ferumind.Text.{Text}
use ferumind.Text.Chars.{codes, is_empty, text_eq}
use ferumind.Text.Lines.{split_lines, join_lines, count_newlines}
use ferumind.Runtime.{Runtime}
use ferumind.Runtime.Json.{Value, str, JsonObject, lookup}
use ferumind.Frontmatter.{parse_frontmatter}
use ferumind.DocumentMap.{LineRange, frontmatter_line_range, max_lines_in_map, max_structure_lines}
use ferumind.DocumentMap.Sections.{DocumentSection, derive_sections}
use ferumind.DocumentMap.Blocks.{DocumentBlock, derive_blocks}
use ferumind.DocumentMap.Titles.{infer_title}

pub record DocumentLine : Type 0 where
  pub line_number : ℕ
  pub sha256 : Text
  pub text_preview : Text

pub record DocumentMap : Type 0 where
  pub project_key : Text
  pub path : Text
  pub document_sha256 : Text
  pub title : Text
  pub status : Text
  pub total_lines : ℕ
  pub frontmatter_range : Option LineRange
  pub body_range : LineRange
  pub sections : List DocumentSection
  pub blocks : List DocumentBlock
  pub lines : Option (List DocumentLine)

-- _derive_lines, for the lines from number `n` on
unfoldable pub derive_lines : Runtime → ℕ → List Text → List DocumentLine
derive_lines rt n [] = []
derive_lines rt n (text ∷ rest) =
    record { line_number = n; sha256 = rt.sha256 text; text_preview = take 120 text }
    ∷ derive_lines rt (suc n) rest

-- The status of the frontmatter, or `active`.
unfoldable pub status_of : JsonObject → Text
status_of frontmatter = elim (lookup (codes "status") frontmatter) [
  | none ↦ codes "active"
  | some v ↦ elim v [ str t ↦ if is_empty t then codes "active" else t | _ ↦ codes "active" ]
]

-- "\n".join(lines[body_start - 1 :]) if body_start <= total_lines else ""
unfoldable pub body_text : List Text → ℕ → Text
body_text lines body_start =
    if leb body_start (length lines) then join_lines (drop (body_start - 1) lines) else []

unfoldable pub line_models : Runtime → Bool → List Text → Result (Option (List DocumentLine))
line_models rt include_lines lines =
    if include_lines
    then if ltb max_lines_in_map (length lines)
      then raise Kind.range_too_large
      else ok (some (derive_lines rt 1 lines))
    else ok none

unfoldable pub build_document_map : Runtime → Text → Text → Text → Bool → Bool → Result DocumentMap
build_document_map rt content project_key path include_blocks include_lines = do
  let total_lines = count_newlines content + 1
  raise_if (ltb max_structure_lines total_lines) Kind.range_too_large
  let lines = split_lines content
  fm ← frontmatter_line_range content
  let body_start = fm.1
  frontmatter ← parse_frontmatter rt content
  let sections = derive_sections rt lines body_start total_lines
  models ← line_models rt include_lines lines
  ok (record {
    project_key = project_key;
    path = path;
    document_sha256 = rt.sha256 content;
    title = infer_title rt frontmatter (body_text lines body_start) path;
    status = status_of frontmatter;
    total_lines = total_lines;
    frontmatter_range = fm.0;
    body_range = record { start_line = body_start; end_line = max body_start total_lines };
    sections = sections;
    blocks = if include_blocks then derive_blocks rt lines body_start total_lines sections else [];
    lines = models;
  })
