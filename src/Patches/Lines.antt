-- ===== src/Patches/Lines.antt =====
-- core/patches.py: patches of a section and of a range of lines.
pub mod Laws
pub mod Sections
use ferumind.Common.{ℕ, ◌-◌, some, List, ◌++◌, ℤ, Result, ok, ◌>>=◌, take, drop}
use ferumind.Text.{Text}
use ferumind.Text.Lines.{split_lines, join_lines}
use ferumind.Runtime.{Runtime}
use ferumind.EditTargets.{resolve_section, resolve_range, max_range_patch_lines}
use ferumind.Patches.{PreparedPatch, ProposalKind, Target, finalize}

-- _replace_lines, for a first line of at least 1
unfoldable pub replace_lines : List Text → ℕ → ℕ → Text → Text
replace_lines lines start_line end_line new_content =
    join_lines (take (start_line - 1) lines ++ (split_lines new_content ++ drop end_line lines))

unfoldable pub prepare_section_patch : Runtime → Text → Text → Text → Result PreparedPatch
prepare_section_patch rt content section_id new_content = do
  section ← resolve_section rt content section_id
  let lines = split_lines content
  let new_full = replace_lines lines section.start_line section.end_line new_content
  finalized ← finalize rt content new_full
  ok (record {
    proposal_kind = ProposalKind.section;
    new_full_content = finalized;
    target_before_sha256 = some section.content_sha256;
    target =
        Target.section_target section.section_id section.start_line section.end_line
          section.content_sha256 (rt.sha256 new_content);
  })

unfoldable pub prepare_range_patch : Runtime → Text → ℤ → ℤ → Text → Result PreparedPatch
prepare_range_patch rt content start_line end_line new_content = do
  found ← resolve_range rt content start_line end_line max_range_patch_lines
  let line_range = found.0
  let lines = split_lines content
  let new_full = replace_lines lines line_range.start_line line_range.end_line new_content
  finalized ← finalize rt content new_full
  ok (record {
    proposal_kind = ProposalKind.range;
    new_full_content = finalized;
    target_before_sha256 = some found.1;
    target =
        Target.range_target line_range.start_line line_range.end_line found.1
          (rt.sha256 new_content);
  })
