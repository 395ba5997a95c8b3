-- ===== src/DocumentMap/Sections/Unique.antt =====
-- The ids of the sections of a document are distinct.
use ferumind.Common.{ℕ, ◌≡◌, refl, subst, false, List, [], ◌∷◌, arith, ltb, if_elim}
use ferumind.Text.{Text}
use ferumind.Text.Chars.{codes, text_eq_iff}
use ferumind.Runtime.{Runtime}
use ferumind.Runtime.Json.{contains}
use ferumind.DocumentMap.Headings.{Heading, find_headings}
use ferumind.DocumentMap.Ids.{IdState, no_ids, slugify, unique_id}
use ferumind.DocumentMap.Ids.Fresh.{unique_id_fresh}
use ferumind.DocumentMap.Sections.{DocumentSection, heading_sections, derive_sections, end_lines}
use ferumind.DocumentMap.Sections.{
  sections_of, first_heading_line, has_preamble, preamble_section, pop_to,
}

abbrev pub section_ids : List DocumentSection → List Text
section_ids [] = []
section_ids (s ∷ ss) = s.section_id ∷ section_ids ss

-- No text stands twice in the list.
abbrev pub Distinct : List Text → Type 0
Distinct [] = Unit
Distinct (x ∷ xs) = (contains xs x ≡ false) × Distinct xs

-- No text of the second list stands in the first.
abbrev Fresh : List Text → List Text → Type 0
Fresh used [] = Unit
Fresh used (x ∷ xs) = (contains used x ≡ false) × Fresh used xs

Fresh-tail : (id : Text) (used xs : List Text) → Fresh (id ∷ used) xs → Fresh used xs
Fresh-tail id used [] h = tt
Fresh-tail id used (x ∷ xs) (a, h) = ((unfold contains in ground arith), Fresh-tail id used xs h)

Fresh-absent : (id : Text) (used xs : List Text) → Fresh (id ∷ used) xs → contains xs id ≡ false
unfolding contains
Fresh-absent id used [] h = refl
Fresh-absent id used (x ∷ xs) (a, h) =
    ground (arith, Fresh-absent id used xs h, text_eq_iff id x, text_eq_iff x id)

heading_sections-Distinct :
    (rt : Runtime) (lines : List Text) (ids : IdState) (stack : List (ℕ × Text)) (hs : List Heading)
    (ends : List ℕ)
    → Fresh ids.used (section_ids (heading_sections rt lines ids stack hs ends))
      × Distinct (section_ids (heading_sections rt lines ids stack hs ends))
unfolding heading_sections
heading_sections-Distinct rt lines ids stack [] ends = (tt, tt)
heading_sections-Distinct rt lines ids stack (h ∷ hs) [] = (tt, tt)
heading_sections-Distinct rt lines ids stack (h ∷ hs) (e ∷ ends) =
    let base = slugify rt h.text in
    let id = (unique_id base ids).0 in
    let (free, grown) = unique_id_fresh base ids in
    let later =
      heading_sections rt lines (unique_id base ids).1 ((h.level, h.text) ∷ pop_to h.level stack) hs
        ends in
    let (fresh, distinct) =
      heading_sections-Distinct rt lines (unique_id base ids).1
        ((h.level, h.text) ∷ pop_to h.level stack) hs ends in
    let fresh' : Fresh (id ∷ ids.used) (section_ids later) =
      subst (λ u. Fresh u (section_ids later)) grown fresh in
    (
      (free, Fresh-tail id ids.used (section_ids later) fresh'),
      (Fresh-absent id ids.used (section_ids later) fresh', distinct),
    )

sections_of-Distinct :
    (rt : Runtime) (lines : List Text) (body_start total_lines : ℕ) (hs : List Heading)
    → Distinct (section_ids (sections_of rt lines body_start total_lines hs))
unfolding sections_of preamble_section unique_id
sections_of-Distinct rt lines body_start total_lines hs =
    let first = first_heading_line total_lines hs in
    let ends = (end_lines total_lines hs).0 in
    let ids = unique_id (codes "preamble") no_ids in
    let (fresh, distinct) = heading_sections-Distinct rt lines ids.1 [] hs ends in
    let later = section_ids (heading_sections rt lines ids.1 [] hs ends) in
    if_elim (λ ss. Distinct (section_ids ss)) (has_preamble lines body_start first) _ _
      (λ pre. (
        Fresh-absent ids.0 [] later
            (subst (λ u. Fresh u later) (unique_id_fresh (codes "preamble") no_ids).1 fresh),
        distinct,
      ))
      λ none_before. (heading_sections-Distinct rt lines no_ids [] hs ends).1

-- The sections of a document have distinct ids.
pub derive_sections-Distinct :
    (rt : Runtime) (lines : List Text) (body_start total_lines : ℕ)
    → Distinct (section_ids (derive_sections rt lines body_start total_lines))
unfolding derive_sections
derive_sections-Distinct rt lines body_start total_lines =
    if_elim (λ ss. Distinct (section_ids ss)) (ltb total_lines body_start) _ _ (λ beyond. tt)
      λ inside.
        sections_of-Distinct rt lines body_start total_lines
          (find_headings lines body_start total_lines)
