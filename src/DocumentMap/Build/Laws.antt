-- ===== src/DocumentMap/Build/Laws.antt =====
-- What is true of a whole document map.
use ferumind.Common.{
  ℕ, suc, ◌+◌, max, ◌≡◌, Bool, true, Option, [], arith, ltb, if◌then◌else◌, Kind, ok, raise_if,
  >>=-eq-ok, length,
}
use ferumind.DocumentMap.Sections.{derive_sections}
use ferumind.DocumentMap.Blocks.{derive_blocks}
use ferumind.DocumentMap.Sections.Hashes.{AreHashed, derive_sections-AreHashed}
use ferumind.DocumentMap.Sections.Order.{AreNested, spans, derive_sections-AreNested}
use ferumind.DocumentMap.Sections.Unique.{Distinct, section_ids, derive_sections-Distinct}
use ferumind.DocumentMap.Blocks.Cover.{ArePartition, derive_blocks-ArePartition}
use ferumind.DocumentMap.Body.{IsFrontmatter, frontmatter_line_range-IsFrontmatter}
use ferumind.Text.{Text}
use ferumind.Text.Lines.{split_lines, count_newlines, length-split_lines}
use ferumind.Runtime.{Runtime}
use ferumind.Frontmatter.{parse_frontmatter}
use ferumind.DocumentMap.{LineRange, frontmatter_line_range, max_structure_lines}
use ferumind.DocumentMap.Build.{DocumentMap, line_models, build_document_map}

-- A map of a text.
pub record IsMap (rt : Runtime) (content : Text) (include_blocks : Bool) (d : DocumentMap)
    : Type 0 where
  pub digest : d.document_sha256 ≡ rt.sha256 content
  pub total : d.total_lines ≡ length (split_lines content)
  pub frontmatter : IsFrontmatter content d.frontmatter_range d.body_range.start_line
  pub stops : d.body_range.end_line ≡ max d.body_range.start_line d.total_lines
  pub nested : AreNested d.body_range.start_line d.total_lines (spans d.sections)
  pub distinct : Distinct (section_ids d.sections)
  pub hashed : AreHashed rt (split_lines content) d.sections
  pub covered :
      include_blocks ≡ true → ArePartition d.body_range.start_line (suc d.total_lines) d.blocks

described :
    (rt : Runtime) (content : Text) (include_blocks : Bool) (d : DocumentMap)
    (range : Option LineRange) (body_start : ℕ)
    → frontmatter_line_range content ≡ ok (range, body_start)
    → d.document_sha256 ≡ rt.sha256 content
    → d.total_lines ≡ length (split_lines content)
    → d.body_range.end_line ≡ max d.body_range.start_line d.total_lines
    → d.frontmatter_range ≡ range
    → d.body_range.start_line ≡ body_start
    → d.sections
      ≡ derive_sections rt (split_lines content) body_start (length (split_lines content))
    → d.blocks ≡ (
        if include_blocks
        then derive_blocks rt
            (split_lines content)
            body_start
            (length (split_lines content))
            d.sections
        else [])
    → IsMap rt content include_blocks d
described rt content include_blocks d range body_start e digest total stops ranged starts sections
      blocks =
    let lines = split_lines content in
    let body = frontmatter_line_range-IsFrontmatter content e in
    let in_order = derive_sections-AreNested rt lines body_start body.first in
    let parts = derive_blocks-ArePartition rt lines body_start d.sections body.first body.last in
    record {
      digest = digest;
      total = total;
      stops = stops;
      frontmatter = rw (ranged, starts) body;
      nested = rw (starts, total, sections) in_order;
      distinct = rw sections (derive_sections-Distinct rt lines body_start (length lines));
      hashed = rw sections (derive_sections-AreHashed rt lines body_start (length lines));
      covered = λ asked.
          let all_blocks : d.blocks ≡ derive_blocks rt lines body_start (length lines) d.sections =
            ground arith in
          rw (starts, total, all_blocks) parts;
    }

-- Where a map is built, it has the hash and counts the lines of the text; its frontmatter range
-- and the first line of its body fit the block and the body that the text is split into, and its
-- body ends at the last line of the text, or is the one line behind it; its sections begin at
-- increasing lines of the body, any two are nested or apart, and they have distinct ids and the
-- hashes of their lines; and its blocks, where they are asked for, partition the lines of the
-- body.
pub build_document_map-IsMap :
    (rt : Runtime) (content project_key path : Text) (include_blocks include_lines : Bool)
    {d : DocumentMap}
    → build_document_map rt content project_key path include_blocks include_lines ≡ ok d
    → IsMap rt content include_blocks d
unfolding build_document_map
build_document_map-IsMap rt content project_key path include_blocks include_lines {d} h =
    let counted : count_newlines content + 1 ≡ length (split_lines content) =
      omega (arith, length-split_lines content) in
    let (_, _, h₁) =
      >>=-eq-ok
        (raise_if (ltb max_structure_lines (count_newlines content + 1)) Kind.range_too_large) _
        h in
    let (fm, e, h₂) = >>=-eq-ok (frontmatter_line_range content) _ h₁ in
    let (frontmatter, f, h₃) = >>=-eq-ok (parse_frontmatter rt content) _ h₂ in
    let (models, g, h₄) = >>=-eq-ok (line_models rt include_lines (split_lines content)) _ h₃ in
    let n : suc (count_newlines content) ≡ length (split_lines content) = omega arith in
    described rt content include_blocks d fm.0 fm.1 e (ground arith) (ground arith) (ground arith)
      (ground arith) (ground arith) (ground arith) (ground arith)
