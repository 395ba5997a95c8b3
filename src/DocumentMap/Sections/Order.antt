-- ===== src/DocumentMap/Sections/Order.antt =====
-- Where the sections lie: in order, inside the body, and nested or apart.
use ferumind.Common.{
  ℕ, suc, ◌-◌, ◌≤◌, ◌<◌, ◌≡◌, refl, sym, ap, ◌∙◌, subst, ◌⊎◌, inl, inr, true, false, Option, none,
  some, List, [], ◌∷◌, arith, ltb, leb, if_elim, length, take, length-take, length-drop,
}
use ferumind.Text.{Text}
use ferumind.Text.Chars.{codes}
use ferumind.Runtime.{Runtime}
use ferumind.DocumentMap.{slice}
use ferumind.DocumentMap.Headings.{Heading, AreHeadings, find_headings, headings_from-AreHeadings}
use ferumind.DocumentMap.Ids.{IdState, slugify, unique_id, no_ids}
use ferumind.DocumentMap.Sections.{pop_to, sections_of, preamble_section}
use ferumind.DocumentMap.Sections.Ends.{line_before}
use ferumind.DocumentMap.Sections.{DocumentSection, heading_sections, derive_sections}
use ferumind.DocumentMap.Sections.{first_heading_line, has_preamble, preamble_section}
use ferumind.DocumentMap.Sections.Ends.{
  next_line, section_end, section_ends, end_lines-section_ends,
}

-- The first and the last line of each section.
abbrev pub spans : List DocumentSection → List (ℕ × ℕ)
spans [] = []
spans (s ∷ ss) = (s.start_line, s.end_line) ∷ spans ss

-- Each span starts behind `b`, or ends at `b` or before.
abbrev pub Apart : ℕ → List (ℕ × ℕ) → Type 0
Apart b [] = Unit
Apart b ((c, d) ∷ rest) = ((b < c) ⊎ (d ≤ b)) × Apart b rest

-- Spans of lines from `from` to `total`, by their first lines; a later one lies inside an earlier
-- one or behind it.
abbrev pub AreNested : ℕ → ℕ → List (ℕ × ℕ) → Type 0
AreNested from total [] = Unit
AreNested from total ((a, b) ∷ rest) =
    (from ≤ a) × (a ≤ b) × (b ≤ total) × Apart b rest × AreNested (suc a) total rest

abbrev heading_spans : ℕ → List Heading → List (ℕ × ℕ)
heading_spans total [] = []
heading_spans total (h ∷ hs) =
    (h.line_number, section_end total h.level hs) ∷ heading_spans total hs

spans-heading_sections :
    (rt : Runtime) (lines : List Text) (ids : IdState) (stack : List (ℕ × Text)) (total : ℕ)
    (hs : List Heading)
    → spans (heading_sections rt lines ids stack hs (section_ends total hs))
      ≡ heading_spans total hs
unfolding heading_sections
spans-heading_sections rt lines ids stack total [] = refl
spans-heading_sections rt lines ids stack total (h ∷ hs) =
    ap (λ r. (h.line_number, section_end total h.level hs) ∷ r)
      (spans-heading_sections rt lines (unique_id (slugify rt h.text) ids).1
        ((h.level, h.text) ∷ pop_to h.level stack) total hs)

next_line_bounds :
    (level from to : ℕ) (hs : List Heading)
    → AreHeadings from to hs
    → (n : ℕ) → next_line level hs ≡ some n
    → (from ≤ n) × (n < to)
next_line_bounds level from to [] h n e = cc
next_line_bounds level from to (h ∷ hs) (le, lt, lo, hi, rest) n e =
    ground (arith, next_line_bounds level (suc h.line_number) to hs rest n)

-- The end of a section that starts in front of `from`.
section_end_bounds :
    (level from total : ℕ) (hs : List Heading)
    → AreHeadings (suc from) (suc total) hs
    → from ≤ total
    → (from ≤ section_end total level hs) × (section_end total level hs ≤ total)
section_end_bounds level from total hs h le =
    line_before_bounds (next_line level hs)
      (λ n e. next_line_bounds level (suc from) (suc total) hs h n e)
  where
    line_before_bounds :
        (found : Option ℕ)
        → ((n : ℕ) → found ≡ some n → (suc from ≤ n) × (n < suc total))
        → (from ≤ line_before total found) × (line_before total found ≤ total)
    line_before_bounds none bound = (le, omega arith)
    line_before_bounds (some n) bound = let (a, b) = bound n refl in (omega arith, omega arith)

-- A deeper section ends no later.
section_end_mono :
    (level deeper from total : ℕ) (hs : List Heading)
    → AreHeadings (suc from) (suc total) hs
    → level ≤ deeper
    → section_end total deeper hs ≤ section_end total level hs
section_end_mono level deeper from total [] h le = omega arith
section_end_mono level deeper from total (h ∷ hs) (a, b, c, d, rest) le = ground (
  arith,
  section_end_mono level deeper h.line_number total hs rest,
  (section_end_bounds level h.line_number total hs rest (omega arith)).0,
)

Apart-behind :
    (b from total : ℕ) (hs : List Heading)
    → AreHeadings from (suc total) hs
    → b < from
    → Apart b (heading_spans total hs)
Apart-behind b from total [] h lt = tt
Apart-behind b from total (h ∷ hs) (a, c, d, e, rest) lt =
    (inl (omega arith), Apart-behind b (suc h.line_number) total hs rest (omega arith))

Apart-section_end :
    (level from total : ℕ) (hs : List Heading)
    → AreHeadings (suc from) (suc total) hs
    → Apart (section_end total level hs) (heading_spans total hs)
Apart-section_end level from total [] h = tt
Apart-section_end level from total (h ∷ hs) (a, c, d, e, rest) =
    if_elim (λ found. Apart (line_before total found) (heading_spans total (h ∷ hs)))
      (leb h.level level) (some h.line_number) (next_line level hs)
      (λ stop. (
        inl (omega arith),
        Apart-behind (h.line_number - 1) (suc h.line_number) total hs rest (omega arith),
      ))
      λ go. (
        inr (section_end_mono level h.level h.line_number total hs rest (ground arith)),
        Apart-section_end level h.line_number total hs rest,
      )

heading_spans-AreNested :
    (from total : ℕ) (hs : List Heading)
    → AreHeadings from (suc total) hs
    → AreNested from total (heading_spans total hs)
heading_spans-AreNested from total [] h = tt
heading_spans-AreNested from total (h ∷ hs) (a, c, d, e, rest) =
    let (lo, hi) = section_end_bounds h.level h.line_number total hs rest (omega arith) in
    (
      a,
      lo,
      hi,
      Apart-section_end h.level h.line_number total hs rest,
      heading_spans-AreNested (suc h.line_number) total hs rest,
    )

preamble-AreNested :
    (body_start total : ℕ) (hs : List Heading)
    → AreHeadings body_start (suc total) hs
    → body_start < first_heading_line total hs
    → AreNested body_start total
        ((body_start, first_heading_line total hs - 1) ∷ heading_spans total hs)
unfolding first_heading_line
preamble-AreNested body_start total [] h lt = (omega arith, omega arith, omega arith, tt, tt)
preamble-AreNested body_start total (h ∷ hs) (a, c, d, e, rest) lt = (
  omega arith,
  omega arith,
  omega arith,
  Apart-behind (h.line_number - 1) h.line_number total (h ∷ hs) (omega arith, c, d, e, rest)
      (omega arith),
  heading_spans-AreNested (suc body_start) total (h ∷ hs) (omega arith, c, d, e, rest),
)

has_preamble-lt :
    (lines : List Text) (body_start first : ℕ)
    → has_preamble lines body_start first ≡ true
    → body_start < first
unfolding has_preamble
has_preamble-lt lines body_start first h = ground arith

sections_of-AreNested :
    (rt : Runtime) (lines : List Text) (body_start total : ℕ) (hs : List Heading)
    → AreHeadings body_start (suc total) hs
    → AreNested body_start total (spans (sections_of rt lines body_start total hs))
unfolding sections_of preamble_section first_heading_line
sections_of-AreNested rt lines body_start total hs h =
    let ends = end_lines-section_ends total body_start (suc total) hs h in
    let first = first_heading_line total hs in
    let spanned = λ (ids : IdState).
      ap (λ e. spans (heading_sections rt lines ids [] hs e)) ends
      ∙ spans-heading_sections rt lines ids [] total hs in
    if_elim (λ ss. AreNested body_start total (spans ss)) (has_preamble lines body_start first) _ _
      (λ pre.
        subst (λ r. AreNested body_start total ((body_start, first - 1) ∷ r))
          (sym (spanned (unique_id (codes "preamble") no_ids).1))
          (preamble-AreNested body_start total hs h (has_preamble-lt lines body_start first pre)))
      λ none_before. rw (spanned no_ids) (heading_spans-AreNested body_start total hs h)

-- For a body that starts at line 1 or later, the sections begin at increasing lines of the body,
-- each ends at its first line or behind it, inside the document, and any two are nested or apart.
pub derive_sections-AreNested :
    (rt : Runtime) (lines : List Text) (body_start : ℕ)
    → 1 ≤ body_start
    → AreNested body_start
        (length lines)
        (spans (derive_sections rt lines body_start (length lines)))
unfolding derive_sections find_headings
derive_sections-AreNested rt lines body_start lo =
    if_elim (λ ss. AreNested body_start (length lines) (spans ss)) (ltb (length lines) body_start) _
      _ (λ beyond. tt)
      λ inside.
        sections_of-AreNested rt lines body_start (length lines)
          (find_headings lines body_start (length lines))
          (headings_from-AreHeadings body_start false (slice lines body_start (length lines))
            (suc (length lines))
            (ground (
              arith,
              length-drop (body_start - 1) (take (length lines) lines),
              length-take (length lines) lines,
            )))
