-- ===== src/EditTargets/Sections.antt =====
-- What `resolve_section` of core/edit_targets.py finds.
use ferumind.Common.{
  ℕ, zero, suc, ◌≤◌, ◌≡◌, subst, inl, inr, true, Option, some, List, [], ◌∷◌, arith, Bool-cases, ok,
  >>=-eq-ok, length, get_elem?,
}
use ferumind.Text.{Text}
use ferumind.Text.Chars.{text_eq, text_eq_iff, text_eq_refl}
use ferumind.Text.Lines.{split_lines}
use ferumind.Runtime.{Runtime}
use ferumind.Runtime.Json.{contains}
use ferumind.DocumentMap.{LineRange, hash_line_range, frontmatter_line_range}
use ferumind.DocumentMap.Body.{frontmatter_line_range-IsFrontmatter}
use ferumind.DocumentMap.Sections.{DocumentSection, derive_sections}
use ferumind.DocumentMap.Sections.Hashes.{AreHashed, derive_sections-AreHashed}
use ferumind.DocumentMap.Sections.Order.{spans, AreNested, derive_sections-AreNested}
use ferumind.DocumentMap.Sections.Unique.{section_ids, Distinct, derive_sections-Distinct}
use ferumind.EditTargets.{find_section, resolve_section}

-- A section of the body: its lines stand behind the frontmatter and inside the document, and its
-- hash is that of its lines.
pub record IsBodySection (rt : Runtime) (lines : List Text) (body_start : ℕ) (s : DocumentSection)
    : Type 0 where
  pub behind : body_start ≤ s.start_line
  pub ordered : s.start_line ≤ s.end_line
  pub inside : s.end_line ≤ length lines
  pub hashed : s.content_sha256 ≡ hash_line_range rt lines s.start_line s.end_line

find_section-IsBodySection :
    (rt : Runtime) (lines : List Text) (body_start from : ℕ) (id : Text) (ss : List DocumentSection)
    {s : DocumentSection}
    → body_start ≤ from
    → AreNested from (length lines) (spans ss)
    → AreHashed rt lines ss
    → find_section id ss ≡ some s
    → IsBodySection rt lines body_start s × (s.section_id ≡ id)
unfolding find_section
find_section-IsBodySection rt lines body_start from id [] lo n h e = absurd (cc)
find_section-IsBodySection rt lines body_start from id (t ∷ ts) {s} lo (a, b, c, d, n) (g, h) e =
    elim (Bool-cases (text_eq t.section_id id)) [
      | inl same ↦
          let q : t ≡ s = ground arith in
          let named = (text_eq_iff t.section_id id).0 same in
          subst (λ u. IsBodySection rt lines body_start u × (u.section_id ≡ id)) q
            (record { behind = omega arith; ordered = b; inside = c; hashed = g }, named)
      | inr other ↦
          find_section-IsBodySection rt lines body_start (suc t.start_line) id ts (omega arith) n h
            (ground arith)
    ]

-- Where a section is resolved, it has the id that was asked for, it is a section of the body, and
-- the frontmatter ends in front of its first line.
pub resolve_section-IsBodySection :
    (rt : Runtime) (content id : Text) {s : DocumentSection}
    → resolve_section rt content id ≡ ok s
    → (fm : Option LineRange × ℕ) × (frontmatter_line_range content ≡ ok fm)
      × IsBodySection rt (split_lines content) fm.1 s
      × (s.section_id ≡ id)
unfolding resolve_section
resolve_section-IsBodySection rt content id {s} h =
    let (fm, e, k) = >>=-eq-ok (frontmatter_line_range content) _ h in
    let lines = split_lines content in
    let sections = derive_sections rt lines fm.1 (length lines) in
    let found : find_section id sections ≡ some s = ground arith in
    let body = frontmatter_line_range-IsFrontmatter content e in
    let (section, named) =
      find_section-IsBodySection rt lines fm.1 fm.1 id sections (omega arith)
        (derive_sections-AreNested rt lines fm.1 body.first)
        (derive_sections-AreHashed rt lines fm.1 (length lines)) found in
    (fm, e, section, named)

get_elem?-section_ids :
    (ss : List DocumentSection) (i : ℕ) {s : DocumentSection}
    → get_elem? ss i ≡ some s
    → contains (section_ids ss) s.section_id ≡ true
unfolding contains
get_elem?-section_ids [] i h = absurd (cc)
get_elem?-section_ids (t ∷ ts) zero {s} h =
    let q : t ≡ s = cc in ground (arith, text_eq_refl s.section_id)
get_elem?-section_ids (t ∷ ts) (suc i) {s} h = ground (arith, get_elem?-section_ids ts i h)

find_section-get_elem? :
    (ss : List DocumentSection) (i : ℕ) {s : DocumentSection}
    → Distinct (section_ids ss)
    → get_elem? ss i ≡ some s
    → find_section s.section_id ss ≡ some s
unfolding find_section
find_section-get_elem? [] i d h = absurd (cc)
find_section-get_elem? (t ∷ ts) zero {s} d h =
    let q : t ≡ s = cc in ground (arith, text_eq_refl s.section_id)
find_section-get_elem? (t ∷ ts) (suc i) {s} (free, d) h =
    let listed = get_elem?-section_ids ts i h in
    ground (arith, find_section-get_elem? ts i d h, text_eq_iff t.section_id s.section_id)

-- Each section that the map of a document lists is resolved by its id.
pub resolve_section-get_elem? :
    (rt : Runtime) (content : Text) (range : Option LineRange) (body_start i : ℕ)
    {s : DocumentSection}
    → frontmatter_line_range content ≡ ok (range, body_start)
    → get_elem?
        (derive_sections rt (split_lines content) body_start (length (split_lines content)))
        i
      ≡ some s
    → resolve_section rt content s.section_id ≡ ok s
unfolding resolve_section
resolve_section-get_elem? rt content range body_start i {s} e h =
    let lines = split_lines content in
    let found =
      find_section-get_elem? (derive_sections rt lines body_start (length lines)) i
        (derive_sections-Distinct rt lines body_start (length lines)) h in
    ground arith
