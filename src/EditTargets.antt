-- ===== src/EditTargets.antt =====
-- core/edit_targets.py: sections and line ranges as edit targets.
pub mod Fences
pub mod Matches
pub mod Exact
pub mod Ranges
pub mod Sections
pub mod Descriptors
use ferumind.Common.{
  ℕ, zero, suc, ◌+◌, ◌-◌, ◌*◌, ◌/◌, ◌%◌, ◌≤◌, ◌<◌, min, max, ◌≡◌, refl, sym, ap, ◌∙◌, subst, ◌≡⟨◌⟩◌,
  ◌∎, ◌≢◌, ◌↔◌, ◌⊎◌, inl, inr, Bool, true, false, not, ◌&&◌, ◌||◌, Option, none, some, List, [],
  ◌∷◌, ◌++◌, map, append-nil, append_assoc, arith, ltb, leb, ◌==◌, if◌then◌else◌, ==_iff, ==_refl,
  leb→le, ltb→lt, Bool-cases, Option-cases, if_elim, is_none, ℤ, pos, negsuc, int_lt, to_nat, Kind,
  Error, Result, ok, err, ◌>>=◌, ◌>>◌, raise, raise_if, >>=-eq-ok, length, get_elem?, get_or, set,
  take, drop, length-append, take-append-drop, length-take, length-drop, take-append_length,
  drop-append_length, drop-nil, take_all, drop_all, drop-suc-drop, take_of_append, drop_of_append,
  drop-drop, take-append-lt, drop-append-lt, filter, get_last?, run_length, run_length-le,
  filter-append,
}
use ferumind.Text.{Text}
use ferumind.Text.Chars.{text_eq}
use ferumind.Text.Lines.{split_lines}
use ferumind.Runtime.{Runtime}
use ferumind.DocumentMap.{LineRange, hash_line_range, frontmatter_line_range}
use ferumind.DocumentMap.Sections.{DocumentSection, derive_sections}

abbrev pub max_range_patch_lines : ℕ
max_range_patch_lines = 200

abbrev pub max_find_limit : ℕ
max_find_limit = 100

abbrev pub max_context_lines : ℕ
max_context_lines = 10

abbrev pub max_regex_query_chars : ℕ
max_regex_query_chars = 512

abbrev pub max_literal_query_chars : ℕ
max_literal_query_chars = 4096

abbrev pub max_matches : ℕ
max_matches = 10_000

-- The first section with an id.
unfoldable pub find_section : Text → List DocumentSection → Option DocumentSection
find_section section_id [] = none
find_section section_id (s ∷ ss) =
    if text_eq s.section_id section_id then some s else find_section section_id ss

unfoldable pub resolve_section : Runtime → Text → Text → Result DocumentSection
resolve_section rt content section_id = do
  let lines = split_lines content
  fm ← frontmatter_line_range content
  elim (find_section section_id (derive_sections rt lines fm.1 (length lines))) [
    | none ↦ raise Kind.section_not_found
    | some s ↦ ok s
  ]

-- fm_range is not None and line <= fm_range.end_line
abbrev pub in_frontmatter : Option LineRange → ℕ → Bool
in_frontmatter none line = false
in_frontmatter (some range) line = leb line range.end_line

unfoldable pub assert_range_not_in_frontmatter : Text → ℕ → Result (Unit {0})
assert_range_not_in_frontmatter content start_line = do
  fm ← frontmatter_line_range content
  raise_if (in_frontmatter fm.0 start_line) Kind.frontmatter_protected

unfoldable pub resolve_range : Runtime → Text → ℤ → ℤ → ℕ → Result (LineRange × Text)
resolve_range rt content start_line end_line max_lines = do
  raise_if (int_lt start_line (pos 1)) Kind.range_not_found
  raise_if (int_lt end_line start_line) Kind.range_not_found
  let lines = split_lines content
  let start = to_nat start_line
  let stop = to_nat end_line
  raise_if (ltb (length lines) stop) Kind.range_not_found
  raise_if (ltb max_lines (stop + 1 - start)) Kind.range_too_large
  assert_range_not_in_frontmatter content start
  ok (record { start_line = start; end_line = stop }, hash_line_range rt lines start stop)
