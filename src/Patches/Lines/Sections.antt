-- ===== src/Patches/Lines/Sections.antt =====
-- What a patch of a section changes, and what it leaves.
use ferumind.Common.{ℕ, ◌-◌, ◌≡◌, Option, some, ◌++◌, arith, ok, >>=-eq-ok, take, drop}
use ferumind.Text.{Text}
use ferumind.Text.Lines.{split_lines}
use ferumind.Runtime.{Runtime}
use ferumind.DocumentMap.{LineRange, frontmatter_line_range}
use ferumind.DocumentMap.Sections.{DocumentSection}
use ferumind.EditTargets.{resolve_section}
use ferumind.EditTargets.Sections.{IsBodySection, resolve_section-IsBodySection}
use ferumind.Patches.{PreparedPatch, finalize}
use ferumind.Patches.Lines.{replace_lines, prepare_section_patch}
use ferumind.Patches.Lines.Laws.{split_lines-replace_lines}

-- What a patch of a section does, where it succeeds: the section has the id, it is a section of the
-- body, its lines are replaced, no other line changes, and the target hash is that of the section.
pub record IsSectionPatch (rt : Runtime) (content section_id new_content : Text) (p : PreparedPatch)
    : Type 0 where
  pub section : DocumentSection
  pub named : section.section_id ≡ section_id
  pub fm : Option LineRange × ℕ
  pub range : frontmatter_line_range content ≡ ok fm
  pub located : IsBodySection rt (split_lines content) fm.1 section
  pub patched : Text
  pub lines :
      split_lines patched
      ≡ take (section.start_line - 1) (split_lines content)
        ++ (split_lines new_content ++ drop section.end_line (split_lines content))
  pub finalized : finalize rt content patched ≡ ok p.new_full_content
  pub guard : p.target_before_sha256 ≡ some section.content_sha256

-- Where a section patch is prepared, the section with that id is one of the body, behind the
-- frontmatter and with the hash of its lines; the patched text has exactly its lines replaced by
-- those of the new content; and the guard hash is that of the section.
pub prepare_section_patch_lem :
    (rt : Runtime) (content section_id new_content : Text) {p : PreparedPatch}
    → prepare_section_patch rt content section_id new_content ≡ ok p
    → IsSectionPatch rt content section_id new_content p
unfolding prepare_section_patch
prepare_section_patch_lem rt content section_id new_content {p} h =
    let (section, e, k) = >>=-eq-ok (resolve_section rt content section_id) _ h in
    let (fm, f, located, named) = resolve_section-IsBodySection rt content section_id e in
    let patched =
      replace_lines (split_lines content) section.start_line section.end_line new_content in
    let (finalized, g, l) = >>=-eq-ok (finalize rt content patched) _ k in
    record {
      section = section;
      named = named;
      fm = fm;
      range = f;
      located = located;
      patched = patched;
      lines = split_lines-replace_lines content new_content section.start_line section.end_line;
      finalized = ground arith;
      guard = ground arith;
    }
