-- ===== src/DocumentMap/Sections/Hashes.antt =====
-- The hashes of the sections of core/document_map.py.
use ferumind.Common.{ℕ, ◌-◌, ◌≡◌, refl, List, [], ◌∷◌, ltb, if_elim}
use ferumind.Text.{Text}
use ferumind.Runtime.{Runtime}
use ferumind.DocumentMap.{hash_line_range}
use ferumind.DocumentMap.Headings.{Heading, find_headings}
use ferumind.DocumentMap.Ids.{IdState, no_ids, slugify, unique_id}
use ferumind.DocumentMap.Sections.{
  DocumentSection, section_digest, pop_to, heading_sections, sections_of, end_lines,
  preamble_section, first_heading_line, has_preamble, derive_sections,
}
use ferumind.Text.Chars.{codes}

-- The hash of each section is that of its lines.
abbrev pub AreHashed : Runtime → List Text → List DocumentSection → Type 0
AreHashed rt lines [] = Unit
AreHashed rt lines (s ∷ ss) =
    (s.content_sha256 ≡ hash_line_range rt lines s.start_line s.end_line) × AreHashed rt lines ss

section_digest-hash :
    (rt : Runtime) (lines : List Text) (a b : ℕ)
    → (section_digest rt lines a b).0 ≡ hash_line_range rt lines a b
unfolding section_digest hash_line_range
section_digest-hash rt lines a b = refl

heading_sections-AreHashed :
    (rt : Runtime) (lines : List Text) (ids : IdState) (stack : List (ℕ × Text)) (hs : List Heading)
    (ends : List ℕ)
    → AreHashed rt lines (heading_sections rt lines ids stack hs ends)
unfolding heading_sections
heading_sections-AreHashed rt lines ids stack [] ends = tt
heading_sections-AreHashed rt lines ids stack (h ∷ hs) [] = tt
heading_sections-AreHashed rt lines ids stack (h ∷ hs) (e ∷ ends) = (
  section_digest-hash rt lines h.line_number e,
  heading_sections-AreHashed rt lines (unique_id (slugify rt h.text) ids).1
      ((h.level, h.text) ∷ pop_to h.level stack) hs ends,
)

sections_of-AreHashed :
    (rt : Runtime) (lines : List Text) (body_start total : ℕ) (hs : List Heading)
    → AreHashed rt lines (sections_of rt lines body_start total hs)
unfolding sections_of preamble_section
sections_of-AreHashed rt lines body_start total hs =
    let ends = (end_lines total hs).0 in
    if_elim (AreHashed rt lines) (has_preamble lines body_start (first_heading_line total hs)) _ _
      (λ text_before. (
        section_digest-hash rt lines body_start (first_heading_line total hs - 1),
        heading_sections-AreHashed rt lines (unique_id (codes "preamble") no_ids).1 [] hs ends,
      ))
      λ none_before. heading_sections-AreHashed rt lines no_ids [] hs ends

pub derive_sections-AreHashed :
    (rt : Runtime) (lines : List Text) (body_start total : ℕ)
    → AreHashed rt lines (derive_sections rt lines body_start total)
unfolding derive_sections
derive_sections-AreHashed rt lines body_start total =
    if_elim (AreHashed rt lines) (ltb total body_start) _ _ (λ beyond. tt)
      λ inside.
        sections_of-AreHashed rt lines body_start total (find_headings lines body_start total)
