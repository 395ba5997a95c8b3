-- ===== src/DocumentMap/Sections.antt =====
-- core/document_map.py: `derive_sections` and its helpers.
pub mod Ends
pub mod Order
pub mod Unique
pub mod Hashes
use ferumind.Common.{
  ℕ, zero, suc, ◌+◌, ◌-◌, ◌*◌, ◌/◌, ◌%◌, ◌≤◌, ◌<◌, min, max, ◌≡◌, refl, sym, ap, ◌∙◌, subst, ◌≡⟨◌⟩◌,
  ◌∎, ◌≢◌, ◌↔◌, ◌⊎◌, inl, inr, Bool, true, false, not, ◌&&◌, ◌||◌, Option, none, some, List, [],
  ◌∷◌, ◌++◌, map, append-nil, append_assoc, arith, ltb, leb, ◌==◌, if◌then◌else◌, ==_iff, ==_refl,
  leb→le, ltb→lt, Bool-cases, Option-cases, ℤ, pos, negsuc, int_lt, to_nat, Kind, Error, Result, ok,
  err, ◌>>=◌, ◌>>◌, raise, raise_if, >>=-eq-ok, length, get_elem?, get_or, set, take, drop,
  length-append, take-append-drop, length-take, length-drop, take-append_length, drop-append_length,
  drop-nil, take_all, drop_all, drop-suc-drop, take_of_append, drop_of_append, drop-drop,
  take-append-lt, drop-append-lt,
}
use ferumind.Text.{Text}
use ferumind.Text.Chars.{codes, strip, is_empty, utf8_length}
use ferumind.Text.Lines.{join_lines}
use mathlib.Core.List.{reverse}
use ferumind.Runtime.{Runtime}
use ferumind.DocumentMap.{slice}
use ferumind.DocumentMap.Headings.{Heading, find_headings}
use ferumind.DocumentMap.Ids.{IdState, no_ids, slugify, unique_id}

pub data SectionKind : Type 0 where
  preamble heading : SectionKind

pub record DocumentSection : Type 0 where
  pub section_id : Text
  pub kind : SectionKind
  pub heading_path : List Text
  pub heading_text : Option Text
  pub level : Option ℕ
  pub start_line : ℕ
  pub end_line : ℕ
  pub content_sha256 : Text
  pub size_bytes : ℕ

-- _section_digest
unfoldable pub section_digest : Runtime → List Text → ℕ → ℕ → Text × ℕ
unfolding join_lines utf8_length
section_digest rt lines start_line end_line =
    let text = join_lines (slice lines start_line end_line) in (rt.sha256 text, utf8_length text)

-- any(line.strip() for line in lines)
unfoldable pub any_text : List Text → Bool
unfolding strip
any_text [] = false
any_text (line ∷ rest) = not (is_empty (strip line)) || any_text rest

-- _range_has_text
unfoldable pub range_has_text : List Text → ℕ → ℕ → Bool
unfolding any_text
range_has_text lines start_line end_line = any_text (slice lines start_line end_line)

-- The least number of a table that has one.
unfoldable pub least : List (Option ℕ) → Option ℕ
least [] = none
least (none ∷ xs) = least xs
least (some n ∷ xs) = elim (least xs) [ none ↦ some n | some m ↦ some (min n m) ]

-- [None] * 7
abbrev pub no_lines : List (Option ℕ)
no_lines = none ∷ none ∷ none ∷ none ∷ none ∷ none ∷ none ∷ []

-- The loop from the last heading to the first: `end_lines`, and `next_line_at_level` at its end.
unfoldable pub end_lines : ℕ → List Heading → List ℕ × List (Option ℕ)
unfolding least
end_lines total_lines [] = ([], no_lines)
end_lines total_lines (h ∷ hs) =
    let (ends, next_line_at_level) = end_lines total_lines hs in
    let end_line : ℕ = elim (least (drop 1 (take (h.level + 1) next_line_at_level))) [
      | none ↦ total_lines
      | some next_line ↦ next_line - 1
    ] in
    (end_line ∷ ends, set next_line_at_level h.level (some h.line_number))

-- while stack and stack[-1][0] >= level: stack.pop(); the top of the stack is the head of the list.
unfoldable pub pop_to : ℕ → List (ℕ × Text) → List (ℕ × Text)
pop_to level [] = []
pop_to level ((l, t) ∷ stack) =
    let rest = pop_to level stack in if leb level l then rest else (l, t) ∷ stack

-- The loop that builds the heading sections.
unfoldable pub heading_sections :
    Runtime → List Text → IdState → List (ℕ × Text) → List Heading → List ℕ → List DocumentSection
heading_sections rt lines ids stack [] ends = []
heading_sections rt lines ids stack (h ∷ hs) [] = []
heading_sections rt lines ids stack (h ∷ hs) (end_line ∷ ends) =
    let outer = pop_to h.level stack in
    let path = map (λ (_, t). t) (reverse outer) ++ h.text ∷ [] in
    let digest = section_digest rt lines h.line_number end_line in
    let new = unique_id (slugify rt h.text) ids in
    record {
      section_id = new.0;
      kind = heading;
      heading_path = path;
      heading_text = some h.text;
      level = some h.level;
      start_line = h.line_number;
      end_line = end_line;
      content_sha256 = digest.0;
      size_bytes = digest.1;
    }
    ∷ heading_sections rt lines new.1 ((h.level, h.text) ∷ outer) hs ends

-- headings[0][0] if headings else total_lines + 1
unfoldable pub first_heading_line : ℕ → List Heading → ℕ
first_heading_line total_lines [] = total_lines + 1
first_heading_line total_lines (h ∷ hs) = h.line_number

-- The section in front of the first heading.
unfoldable pub preamble_section : Runtime → List Text → ℕ → ℕ → DocumentSection
unfolding section_digest unique_id
preamble_section rt lines body_start preamble_end =
    let digest = section_digest rt lines body_start preamble_end in
    record {
      section_id = (unique_id (codes "preamble") no_ids).0;
      kind = preamble;
      heading_path = [];
      heading_text = none;
      level = none;
      start_line = body_start;
      end_line = preamble_end;
      content_sha256 = digest.0;
      size_bytes = digest.1;
    }

unfoldable pub has_preamble : List Text → ℕ → ℕ → Bool
unfolding range_has_text
has_preamble lines body_start first =
    ltb body_start first && range_has_text lines body_start (first - 1)

-- The part of `derive_sections` behind `_find_headings`.
unfoldable pub sections_of : Runtime → List Text → ℕ → ℕ → List Heading → List DocumentSection
sections_of rt lines body_start total_lines headings =
    let first = first_heading_line total_lines headings in
    let ends = (end_lines total_lines headings).0 in
    if has_preamble lines body_start first
    then preamble_section rt lines body_start (first - 1)
      ∷ heading_sections rt lines (unique_id (codes "preamble") no_ids).1 [] headings ends
    else heading_sections rt lines no_ids [] headings ends

-- derive_sections
unfoldable pub derive_sections : Runtime → List Text → ℕ → ℕ → List DocumentSection
derive_sections rt lines body_start total_lines =
    if ltb total_lines body_start
    then []
    else sections_of rt lines body_start total_lines (find_headings lines body_start total_lines)
