-- ===== src/Patches/Insert/Laws.antt =====
-- Where an insertion of core/patches.py goes, and what it leaves.
use ferumind.Common.{
  ℕ, suc, ◌≤◌, ◌≡◌, refl, subst, true, false, ◌||◌, Option, none, some, [], ◌++◌, arith, ℤ, pos,
  negsuc, int_lt, to_nat, Kind, Result, ok, err, ◌>>◌, raise, raise_if, >>=-eq-ok, length, take,
  drop,
}
use ferumind.Text.{Text}
use ferumind.Text.Lines.{split_lines, split_lines-AreLines}
use ferumind.Text.Lines.Parts.{take-AreLines, drop-AreLines, split_lines_of_parts}
use ferumind.Runtime.{Runtime}
use ferumind.DocumentMap.{LineRange, frontmatter_line_range}
use ferumind.EditTargets.Ranges.{unprotected_line}
use ferumind.DocumentMap.Body.{frontmatter_line_range-IsFrontmatter}
use ferumind.EditTargets.{in_frontmatter, resolve_section}
use ferumind.EditTargets.Matches.{resolve_match_anchor_line}
use ferumind.EditTargets.Matches.Anchors.{resolve_match_anchor_line_bounds}
use ferumind.EditTargets.Sections.{resolve_section-IsBodySection}
use ferumind.Patches.{PreparedPatch, AnchorKind, Position, finalize}
use ferumind.Patches.Insert.{
  InsertAnchor, validate_anchor_hash, index_at, line_anchor_index, section_anchor_index,
  match_anchor_index, resolve_insert_index, insert_lines, prepare_insert_patch,
}

-- The lines in front of the body stay in front of the insertion, which goes inside the document or
-- to its end.
abbrev pub IsBodyIndex : ℕ → ℕ → ℕ → Type 0
IsBodyIndex body_start total index = (body_start ≤ suc index) × (index ≤ total)

index_at-IsBodyIndex :
    (position : Position) (body_start total line : ℕ)
    → body_start ≤ line
    → line ≤ total
    → 1 ≤ line
    → IsBodyIndex body_start total (index_at position line)
index_at-IsBodyIndex Position.before body_start total line lo hi le = (omega arith, omega arith)
index_at-IsBodyIndex Position.after body_start total line lo hi le = (omega arith, omega arith)

-- A field that is required.
abbrev given {ℓ} : {A : Type ℓ} → Option A → Result A
given none = raise Kind.validation
given (some a) = ok a

-- A line number that is accepted.
line_number_bounds :
    (number : ℤ) (total : ℕ) {u : Unit {0}}
    → raise_if (int_lt number (pos 1) || int_lt (pos total) number) Kind.validation ≡ ok u
    → (1 ≤ to_nat number) × (to_nat number ≤ total)
line_number_bounds (pos n) total h = ground arith
line_number_bounds (negsuc n) total h = absurd (cc)

line_anchor_index-IsBodyIndex :
    (rt : Runtime) (content : Text) (anchor : InsertAnchor) {fm : Option LineRange × ℕ} {index : ℕ}
    → frontmatter_line_range content ≡ ok fm
    → line_anchor_index rt content anchor ≡ ok index
    → IsBodyIndex fm.1 (length (split_lines content)) index
unfolding line_anchor_index
line_anchor_index-IsBodyIndex rt content anchor {fm} {index} e h =
    let (fm', f, h₁) = >>=-eq-ok (frontmatter_line_range content) _ h in
    let same : fm' ≡ fm = cc in
    let (number, g, h₂) = >>=-eq-ok (given anchor.line_number) _ h₁ in
    let (_, r, h₃) =
      >>=-eq-ok
        (raise_if (int_lt number (pos 1) || int_lt (pos (length (split_lines content))) number)
          Kind.validation)
        _ h₂ in
    let line = to_nat number in
    let (lo, hi) = line_number_bounds number (length (split_lines content)) r in
    let (_, p, h₄) =
      >>=-eq-ok (raise_if (in_frontmatter fm'.0 line) Kind.frontmatter_protected) _ h₃ in
    let unprotected : in_frontmatter fm'.0 line ≡ false = ground arith in
    let (_, _, h₅) =
      >>=-eq-ok (validate_anchor_hash rt content line anchor.expected_anchor_sha256) _ h₄ in
    let at : index_at anchor.position line ≡ index = cc in
    subst (λ s. IsBodyIndex s.1 (length (split_lines content)) index) same
      (subst (IsBodyIndex fm'.1 (length (split_lines content))) at (
        index_at-IsBodyIndex anchor.position fm'.1 (length (split_lines content)) line
          (unprotected_line content line f unprotected lo) hi lo))

section_anchor_index-IsBodyIndex :
    (rt : Runtime) (content : Text) (anchor : InsertAnchor) {fm : Option LineRange × ℕ} {index : ℕ}
    → frontmatter_line_range content ≡ ok fm
    → section_anchor_index rt content anchor ≡ ok index
    → IsBodyIndex fm.1 (length (split_lines content)) index
unfolding section_anchor_index
section_anchor_index-IsBodyIndex rt content anchor {fm} {index} e h =
    let (_, f, h₁) = >>=-eq-ok (frontmatter_line_range content) _ h in
    let (id, g, h₂) = >>=-eq-ok (given anchor.section_id) _ h₁ in
    let (s, r, h₃) = >>=-eq-ok (resolve_section rt content id) _ h₂ in
    let (fm', e', section, named) = resolve_section-IsBodySection rt content id r in
    let same : fm' ≡ fm = cc in
    let behind : fm.1 ≤ s.start_line = subst (λ r. r.1 ≤ s.start_line) same section.behind in
    let ordered = section.ordered in
    let inside = section.inside in
    let first =
      (frontmatter_line_range-IsFrontmatter content {range = fm.0} {body_start = fm.1} e).first in
    ground arith

match_anchor_index-IsBodyIndex :
    (rt : Runtime) (content : Text) (anchor : InsertAnchor) {fm : Option LineRange × ℕ} {index : ℕ}
    → frontmatter_line_range content ≡ ok fm
    → match_anchor_index rt content anchor ≡ ok index
    → IsBodyIndex fm.1 (length (split_lines content)) index
unfolding match_anchor_index
match_anchor_index-IsBodyIndex rt content anchor {fm} {index} e h =
    let (_, f, h₁) = >>=-eq-ok (frontmatter_line_range content) _ h in
    let (line, g, h₂) =
      >>=-eq-ok
        (resolve_match_anchor_line rt content (elim anchor.match_text [ none ↦ [] | some t ↦ t ])
          anchor.match_occurrence true)
        _ h₁ in
    let (lo, hi, unprotected) =
      resolve_match_anchor_line_bounds rt content _ anchor.match_occurrence true e g in
    let (_, _, h₃) =
      >>=-eq-ok (validate_anchor_hash rt content line anchor.expected_anchor_sha256) _ h₂ in
    let at : index_at anchor.position line ≡ index = cc in
    subst (IsBodyIndex fm.1 (length (split_lines content))) at (
      index_at-IsBodyIndex anchor.position fm.1 (length (split_lines content)) line
        (unprotected_line content line e unprotected lo) hi lo)

resolve_insert_index-IsBodyIndex :
    (rt : Runtime) (content : Text) (anchor : InsertAnchor) {fm : Option LineRange × ℕ} {index : ℕ}
    → frontmatter_line_range content ≡ ok fm
    → resolve_insert_index rt content anchor ≡ ok index
    → IsBodyIndex fm.1 (length (split_lines content)) index
unfolding resolve_insert_index
resolve_insert_index-IsBodyIndex rt content anchor {fm} {index} e h = by_kind anchor.kind h
  where
    by_kind :
        (kind : AnchorKind)
        → elim kind [
          | AnchorKind.end_of_file ↦ do
            frontmatter_line_range content
            ok (length (split_lines content))
          | AnchorKind.line ↦ line_anchor_index rt content anchor
          | AnchorKind.section ↦ section_anchor_index rt content anchor
          | AnchorKind.match ↦ match_anchor_index rt content anchor
        ]
          ≡ ok index
        → IsBodyIndex fm.1 (length (split_lines content)) index
    by_kind AnchorKind.end_of_file k =
        let last =
          (frontmatter_line_range-IsFrontmatter content {range = fm.0} {body_start = fm.1}
            e).last in
        let (_, _, at) = >>=-eq-ok (frontmatter_line_range content) _ k in
        let q : length (split_lines content) ≡ index = cc in (omega arith, omega arith)
    by_kind AnchorKind.line k = line_anchor_index-IsBodyIndex rt content anchor e k
    by_kind AnchorKind.section k = section_anchor_index-IsBodyIndex rt content anchor e k
    by_kind AnchorKind.match k = match_anchor_index-IsBodyIndex rt content anchor e k

-- Every kind of anchor reads the frontmatter first.
resolve_insert_index-frontmatter :
    (rt : Runtime) (content : Text) (anchor : InsertAnchor) {index : ℕ}
    → resolve_insert_index rt content anchor ≡ ok index
    → (fm : Option LineRange × ℕ) × (frontmatter_line_range content ≡ ok fm)
unfolding resolve_insert_index line_anchor_index section_anchor_index match_anchor_index
resolve_insert_index-frontmatter rt content anchor {index} h =
    by_result (frontmatter_line_range content) refl
  where
    by_result :
        (r : Result (Option LineRange × ℕ))
        → frontmatter_line_range content ≡ r
        → (fm : Option LineRange × ℕ) × (frontmatter_line_range content ≡ ok fm)
    by_result (ok fm) e = (fm, e)
    by_result (err x) e = absurd (ground arith)

-- What an insertion that is prepared does: it has an index behind the frontmatter and inside the
-- document, and the lines of the new content stand there between the lines of the document, all of
-- which are kept.
pub record IsInsertPatch (rt : Runtime) (content : Text) (anchor : InsertAnchor)
    (insert_content : Text) (p : PreparedPatch) : Type 0 where
  pub fm : Option LineRange × ℕ
  pub range : frontmatter_line_range content ≡ ok fm
  pub index : ℕ
  pub resolved : resolve_insert_index rt content anchor ≡ ok index
  pub placed : IsBodyIndex fm.1 (length (split_lines content)) index
  pub patched : Text
  pub lines :
      split_lines patched
      ≡ take index (split_lines content)
        ++ (split_lines insert_content ++ drop index (split_lines content))
  pub finalized : finalize rt content patched ≡ ok p.new_full_content

split_lines-insert_lines :
    (content insert_content : Text) (index : ℕ)
    → split_lines (insert_lines (split_lines content) index insert_content)
      ≡ take index (split_lines content)
        ++ (split_lines insert_content ++ drop index (split_lines content))
unfolding insert_lines
split_lines-insert_lines content insert_content index =
    split_lines_of_parts (take index (split_lines content)) (drop index (split_lines content))
      insert_content (take-AreLines index (split_lines content) (split_lines-AreLines content))
      (drop-AreLines index (split_lines content) (split_lines-AreLines content))

-- Where an insertion is prepared, it has one line index behind the frontmatter and inside the
-- document; the patched text has the lines of the new content there, between the lines of the
-- document, all of which are kept.
pub prepare_insert_patch_lem :
    (rt : Runtime) (content : Text) (anchor : InsertAnchor) (insert_content : Text)
    {p : PreparedPatch}
    → prepare_insert_patch rt content anchor insert_content ≡ ok p
    → IsInsertPatch rt content anchor insert_content p
unfolding prepare_insert_patch
prepare_insert_patch_lem rt content anchor insert_content {p} h =
    let (index, f, k) = >>=-eq-ok (resolve_insert_index rt content anchor) _ h in
    let (fm, e) = resolve_insert_index-frontmatter rt content anchor f in
    let patched = insert_lines (split_lines content) index insert_content in
    let (finalized, g, l) = >>=-eq-ok (finalize rt content patched) _ k in
    record {
      fm = fm;
      range = e;
      index = index;
      resolved = f;
      placed = resolve_insert_index-IsBodyIndex rt content anchor e f;
      patched = patched;
      lines = split_lines-insert_lines content insert_content index;
      finalized = ground arith;
    }
