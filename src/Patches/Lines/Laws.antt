-- ===== src/Patches/Lines/Laws.antt =====
-- What a patch of lines changes, and what it leaves.
use ferumind.Common.{
  ℕ, ◌-◌, ◌≤◌, ◌≡◌, some, ◌++◌, arith, ℤ, ok, >>=-eq-ok, length, take, drop, length-take,
  length-drop,
}
use ferumind.Text.{Text}
use ferumind.Text.Lines.{
  split_lines, join_lines, split_lines-AreLines, join_lines-split_lines, split_lines-join_lines,
}
use ferumind.Text.Lines.Parts.{
  take-AreLines, drop-AreLines, append_three_parts, split_lines_of_parts, length-NonEmpty,
}
use ferumind.DocumentMap.{slice}
use ferumind.Patches.Lines.{replace_lines}
use ferumind.Runtime.{Runtime}
use ferumind.DocumentMap.{LineRange, slice}
use ferumind.EditTargets.{resolve_range, max_range_patch_lines}
use ferumind.EditTargets.Ranges.{IsRange, resolve_range-IsRange}
use ferumind.Patches.{PreparedPatch, finalize}
use ferumind.Patches.Lines.{replace_lines, prepare_range_patch}

-- The patched text has the lines in front, those of the new content, and those behind.
pub split_lines-replace_lines :
    (content new_content : Text) (start_line end_line : ℕ)
    → split_lines (replace_lines (split_lines content) start_line end_line new_content)
      ≡ take (start_line - 1) (split_lines content)
        ++ (split_lines new_content ++ drop end_line (split_lines content))
unfolding replace_lines
split_lines-replace_lines content new_content start_line end_line =
    split_lines_of_parts (take (start_line - 1) (split_lines content))
      (drop end_line (split_lines content)) new_content
      (take-AreLines (start_line - 1) (split_lines content) (split_lines-AreLines content))
      (drop-AreLines end_line (split_lines content) (split_lines-AreLines content))

-- For a range of lines inside a document, replacing the lines by themselves gives the document
-- back.
pub replace_lines-slice :
    (content : Text) (start_line end_line : ℕ)
    → 1 ≤ start_line
    → start_line ≤ end_line
    → end_line ≤ length (split_lines content)
    → replace_lines
        (split_lines content)
        start_line
        end_line
        (join_lines (slice (split_lines content) start_line end_line))
      ≡ content
unfolding replace_lines
replace_lines-slice content start_line end_line lo le hi =
    let lines = split_lines content in
    let part = slice lines start_line end_line in
    let part_lines : split_lines (join_lines part) ≡ part =
      split_lines-join_lines part
        (drop-AreLines (start_line - 1) (take end_line lines)
          (take-AreLines end_line lines (split_lines-AreLines content)))
        (length-NonEmpty part (
          omega (
            arith,
            length-drop (start_line - 1) (take end_line lines),
            length-take end_line lines,
          ))) in
    rw (replace_lines, part_lines, append_three_parts (start_line - 1) end_line lines (omega arith))
      (join_lines-split_lines content)

-- What a patch of a range of lines does, where it succeeds: the lines of the range are replaced, no
-- other line changes, the range lies behind the frontmatter, and the target hash is that of the
-- replaced lines.
pub record IsRangePatch (rt : Runtime) (content : Text) (start_line end_line : ℤ)
    (new_content : Text) (p : PreparedPatch) : Type 0 where
  pub found : LineRange × Text
  pub range : IsRange rt content start_line end_line max_range_patch_lines found
  pub patched : Text
  pub lines :
      split_lines patched
      ≡ take (found.0.start_line - 1) (split_lines content)
        ++ (split_lines new_content ++ drop found.0.end_line (split_lines content))
  pub finalized : finalize rt content patched ≡ ok p.new_full_content
  pub guard : p.target_before_sha256 ≡ some found.1

-- Where a range patch is prepared, its range is the one asked for, inside the document, short
-- enough and with a first line behind the frontmatter; the patched text has exactly the lines of
-- the range replaced by those of the new content; and the guard hash is that of the replaced
-- lines.
pub prepare_range_patch_lem :
    (rt : Runtime) (content : Text) (start_line end_line : ℤ) (new_content : Text)
    {p : PreparedPatch}
    → prepare_range_patch rt content start_line end_line new_content ≡ ok p
    → IsRangePatch rt content start_line end_line new_content p
unfolding prepare_range_patch
prepare_range_patch_lem rt content start_line end_line new_content {p} h =
    let (found, e, k) =
      >>=-eq-ok (resolve_range rt content start_line end_line max_range_patch_lines) _ h in
    let patched =
      replace_lines (split_lines content) found.0.start_line found.0.end_line new_content in
    let (finalized, f, l) = >>=-eq-ok (finalize rt content patched) _ k in
    record {
      found = found;
      range = resolve_range-IsRange rt content start_line end_line max_range_patch_lines e;
      patched = patched;
      lines = split_lines-replace_lines content new_content found.0.start_line found.0.end_line;
      finalized = ground arith;
      guard = ground arith;
    }
