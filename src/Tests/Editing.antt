-- ===== src/Tests/Editing.antt =====
-- Runs of the patches of core/patches.py on small documents.
use ferumind.Common.{
  ◌≡◌, refl, ◌↔◌, none, some, List, [], ◌∷◌, ◌++◌, arith, pos, Kind, Error, ok, err,
}
use ferumind.Text.{Text}
use ferumind.Text.Chars.{codes}
use ferumind.Text.Lines.{newline, split_lines, join_lines}
use ferumind.DocumentMap.{slice}
use ferumind.EditTargets.Exact.{ExactMatch}
use ferumind.EditTargets.Exact.Scan.{
  AreMatches, find_exact_matches-AreMatches, find_exact_matches-kind,
}
use ferumind.EditTargets.Ranges.{IsRange, resolve_range-ok_iff}
use ferumind.EditTargets.{resolve_range}
use ferumind.EditTargets.Exact.LineNumbers.{line_of, line_number_at_offset-line_of}
use ferumind.EditTargets.Exact.{line_number_at_offset, line_starts}
use ferumind.Patches.{PreparedPatch, ProposalKind, Target, Occurrence, finalize}
use ferumind.Patches.Lines.{replace_lines}
use ferumind.Patches.Lines.Laws.{IsRangePatch, prepare_range_patch_lem, replace_lines-slice}
use ferumind.Patches.Exact.Replace.{replace_all}
use ferumind.Patches.Exact.Selection.{
  IsExactPatch, prepare_exact_replace_patch_lem, prepare_exact_replace_patch-replace_all,
}
use ferumind.Tests.Sample.{sample, running, patching}

-- Two lines, `ab` and `cab`.
abbrev bare : Text
bare = codes "ab" ++ newline ∷ codes "cab"

-- The lines `ab` and `cab` behind a frontmatter block of three lines that holds `ab` too.
abbrev note : Text
note = codes "---" ++ newline ∷ codes "x: ab" ++ newline ∷ codes "---" ++ newline ∷ bare

abbrev both : List ExactMatch
both =
    record { start_offset = 0; end_offset = 2; start_line = 1; end_line = 1 }
    ∷ record { start_offset = 4; end_offset = 6; start_line = 2; end_line = 2 }
    ∷ []

find_exact_matches-AreMatches_example : AreMatches bare (codes "ab") 0 both
unfolding running
find_exact_matches-AreMatches_example = find_exact_matches-AreMatches bare (codes "ab") both refl

abbrev rejected : Error
rejected = record { kind = Kind.validation; edit_index = none }

find_exact_matches-kind_example : rejected ≡ record { kind = Kind.validation; edit_index = none }
unfolding running
find_exact_matches-kind_example = find_exact_matches-kind bare [] rejected refl

line_number_at_offset-line_of_example : line_number_at_offset (line_starts bare) 4 ≡ line_of bare 4
line_number_at_offset-line_of_example = line_number_at_offset-line_of bare 4

resolve_range-ok_iff_example :
    (resolve_range sample note (pos 4) (pos 5) 200
      ≡ ok (record { start_line = 4; end_line = 5 }, bare))
    ↔ IsRange sample note (pos 4) (pos 5) 200 (record { start_line = 4; end_line = 5 }, bare)
resolve_range-ok_iff_example =
    resolve_range-ok_iff sample note (pos 4) (pos 5) 200
      (record { start_line = 4; end_line = 5 }, bare)

-- The range of the body is accepted, and a range that begins in the frontmatter is not.
body_range_accepted :
    resolve_range sample note (pos 4) (pos 5) 200
    ≡ ok (record { start_line = 4; end_line = 5 }, bare)
unfolding running
body_range_accepted = refl

frontmatter_range_refused :
    resolve_range sample note (pos 3) (pos 5) 200
    ≡ err (record { kind = Kind.frontmatter_protected; edit_index = none })
unfolding running
frontmatter_range_refused = refl

-- The second match of the body is replaced.
abbrev second : PreparedPatch
second = record {
  proposal_kind = ProposalKind.exact_replace;
  new_full_content =
      codes "---"
      ++ newline ∷ codes "x: ab"
      ++ newline ∷ codes "---"
      ++ newline ∷ codes "ab"
      ++ newline ∷ codes "cxyz";
  target_before_sha256 = some (codes "ab");
  target =
      Target.exact_target (codes "ab") (codes "xyz") (Occurrence.at (pos 2)) 1
        (record { start_line = 5; end_line = 5 } ∷ []);
}

prepare_exact_replace_patch_example : IsExactPatch sample note (codes "ab") (codes "xyz") second
unfolding patching
prepare_exact_replace_patch_example =
    prepare_exact_replace_patch_lem sample note (codes "ab") (codes "xyz") (Occurrence.at (pos 2))
      none refl

abbrev everywhere : PreparedPatch
everywhere = record {
  proposal_kind = ProposalKind.exact_replace;
  new_full_content = codes "xyz" ++ newline ∷ codes "cxyz";
  target_before_sha256 = some (codes "ab");
  target =
      Target.exact_target (codes "ab") (codes "xyz") Occurrence.all 2
        (record { start_line = 1; end_line = 1 } ∷ record { start_line = 2; end_line = 2 } ∷ []);
}

replace_all_example :
    finalize sample bare (replace_all (codes "ab") (codes "xyz") 0 bare)
    ≡ ok everywhere.new_full_content
unfolding patching
replace_all_example =
    prepare_exact_replace_patch-replace_all sample bare (codes "ab") (codes "xyz") (some (pos 2))
      {p = everywhere} refl refl

abbrev ranged : PreparedPatch
ranged = record {
  proposal_kind = ProposalKind.range;
  new_full_content =
      codes "---"
      ++ newline ∷ codes "x: ab"
      ++ newline ∷ codes "---"
      ++ newline ∷ codes "ab"
      ++ newline ∷ codes "d";
  target_before_sha256 = some (codes "cab");
  target = Target.range_target 5 5 (codes "cab") (codes "d");
}

prepare_range_patch_example : IsRangePatch sample note (pos 5) (pos 5) (codes "d") ranged
unfolding patching
prepare_range_patch_example = prepare_range_patch_lem sample note (pos 5) (pos 5) (codes "d") refl

replace_lines-slice_example :
    replace_lines (split_lines note) 2 4 (join_lines (slice (split_lines note) 2 4)) ≡ note
unfolding running
replace_lines-slice_example = replace_lines-slice note 2 4 (omega arith) (omega arith) (omega arith)

-- A managed document with a stamp, with an older and with the present time.
abbrev managed_document : Text → Text
managed_document time =
    codes "---"
    ++ newline ∷ codes "id: d"
    ++ newline ∷ codes "type: document"
    ++ newline ∷ codes "project: p"
    ++ newline ∷ codes "updated: "
    ++ (time ++ newline ∷ codes "---" ++ newline ∷ bare)
