-- ===== src/Tests/Patching.antt =====
-- Runs of the section, insertion, frontmatter and batch patches on small documents.
use ferumind.Common.{◌≡◌, refl, none, some, List, [], ◌∷◌, ◌++◌, pos, ok}
use ferumind.Text.{Text}
use ferumind.Text.Chars.{codes}
use ferumind.Text.Lines.{newline}
use ferumind.Runtime.Json.{JsonObject, str}
use ferumind.Yaml.Safety.{IsBounded, safe_load_yaml-IsBounded}
use ferumind.Frontmatter.Laws.{extract_frontmatter_block_splits}
use ferumind.DocumentMap.Body.{IsFrontmatter, frontmatter_line_range-IsFrontmatter}
use ferumind.DocumentMap.Sections.{DocumentSection, SectionKind}
use ferumind.EditTargets.{resolve_section}
use ferumind.EditTargets.Sections.{resolve_section-get_elem?}
use ferumind.Patches.{PreparedPatch, ProposalKind, Target, AnchorKind, Position}
use ferumind.Patches.Lines.Sections.{IsSectionPatch, prepare_section_patch_lem}
use ferumind.Patches.Insert.{InsertAnchor}
use ferumind.Patches.Insert.Laws.{IsInsertPatch, prepare_insert_patch_lem}
use ferumind.Patches.Exact.{ExactEdit}
use ferumind.Patches.Exact.Batch.{IsBatch, prepare_multi_edit_patch_lem}
use ferumind.Tests.Sample.{sample, running, patching}

-- A frontmatter block of three lines, and two sections of two lines.
abbrev block : Text → Text
block value =
    codes "---" ++ newline ∷ (codes "x: " ++ (value ++ newline ∷ (codes "---" ++ newline ∷ [])))

abbrev sections : Text
sections =
    codes "# A" ++ newline ∷ (codes "one" ++ newline ∷ (codes "# B" ++ newline ∷ codes "two"))

abbrev page : Text
page = block (codes "ab") ++ sections

safe_load_yaml_example : IsBounded sample (codes "x: ab") 10 5 1
unfolding running
safe_load_yaml_example = safe_load_yaml-IsBounded sample (codes "x: ab") 10 5 1 refl

extract_frontmatter_block_example : block (codes "ab") ++ sections ≡ page
unfolding running
extract_frontmatter_block_example =
    extract_frontmatter_block_splits page {block = block (codes "ab")} {body = sections} refl

frontmatter_line_range_example :
    IsFrontmatter page (some (record { start_line = 1; end_line = 3 })) 4
unfolding running
frontmatter_line_range_example = frontmatter_line_range-IsFrontmatter page refl

abbrev section_b : DocumentSection
section_b = record {
  section_id = codes "b";
  kind = SectionKind.heading;
  heading_path = codes "B" ∷ [];
  heading_text = some (codes "B");
  level = some 1;
  start_line = 6;
  end_line = 7;
  content_sha256 = codes "# B" ++ newline ∷ codes "two";
  size_bytes = 7;
}

resolve_section_example : resolve_section sample page (codes "b") ≡ ok section_b
unfolding running
resolve_section_example =
    resolve_section-get_elem? sample page (some (record { start_line = 1; end_line = 3 })) 4 1
      {s = section_b} refl refl

abbrev section_patched : PreparedPatch
section_patched = record {
  proposal_kind = ProposalKind.section;
  new_full_content =
      block (codes "ab") ++ (codes "# A" ++ newline ∷ (codes "one" ++ newline ∷ codes "three"));
  target_before_sha256 = some section_b.content_sha256;
  target = Target.section_target (codes "b") 6 7 section_b.content_sha256 (codes "three");
}

prepare_section_patch_example :
    IsSectionPatch sample page (codes "b") (codes "three") section_patched
unfolding patching
prepare_section_patch_example =
    prepare_section_patch_lem sample page (codes "b") (codes "three") refl

abbrev before_b : InsertAnchor
before_b = record {
  kind = AnchorKind.section;
  position = Position.before;
  line_number = none;
  section_id = some (codes "b");
  match_text = none;
  match_occurrence = none;
  expected_anchor_sha256 = none;
}

abbrev inserted : PreparedPatch
inserted = record {
  proposal_kind = ProposalKind.insert;
  new_full_content =
      block (codes "ab")
      ++ (codes "# A"
          ++ newline
            ∷ (codes "one"
                ++ newline ∷ (codes "new" ++ newline ∷ (codes "# B" ++ newline ∷ codes "two"))));
  target_before_sha256 = none;
  target =
      Target.insert_target AnchorKind.section Position.before 5 none (some (codes "b")) none none
        (codes "new");
}

prepare_insert_patch_example : IsInsertPatch sample page before_b (codes "new") inserted
unfolding patching
prepare_insert_patch_example = prepare_insert_patch_lem sample page before_b (codes "new") refl

-- The second edit replaces a part of what the first one wrote.
abbrev two_edits : List ExactEdit
two_edits =
    record { old_string = codes "one"; new_string = codes "two-and"; occurrence = none }
    ∷ record { old_string = codes "two"; new_string = codes "six"; occurrence = some (pos 1) }
    ∷ []

abbrev batched : PreparedPatch
batched = record {
  proposal_kind = ProposalKind.multi_edit;
  new_full_content =
      block (codes "ab")
      ++ (codes "# A"
          ++ newline ∷ (codes "six-and" ++ newline ∷ (codes "# B" ++ newline ∷ codes "two")));
  target_before_sha256 = none;
  target = Target.multi_target 2 (
      record {
        edit_index = 0;
        start_line = 5;
        end_line = 5;
        occurrence = none;
        old_string = codes "one";
        new_string = codes "two-and";
      }
      ∷ record {
        edit_index = 1;
        start_line = 5;
        end_line = 5;
        occurrence = some (pos 1);
        old_string = codes "two";
        new_string = codes "six";
      }
      ∷ []);
}

prepare_multi_edit_patch_example : IsBatch sample page two_edits batched
unfolding patching
prepare_multi_edit_patch_example = prepare_multi_edit_patch_lem sample page two_edits refl

abbrev old_values : JsonObject
old_values = (codes "x", str (codes "ab")) ∷ []

abbrev new_values : JsonObject
new_values = (codes "x", str (codes "b")) ∷ []

abbrev set_patched : PreparedPatch
set_patched = record {
  proposal_kind = ProposalKind.frontmatter;
  new_full_content = block (codes "b") ++ sections;
  target_before_sha256 = some (block (codes "ab"));
  target = Target.frontmatter_target new_values (codes "x" ∷ []) [];
}
