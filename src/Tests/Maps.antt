-- ===== src/Tests/Maps.antt =====
-- A run of `build_document_map` on a small document.
use ferumind.Common.{refl, true, false, none, some, [], ◌∷◌, ◌++◌}
use ferumind.Text.{Text}
use ferumind.Text.Chars.{codes}
use ferumind.Text.Lines.{newline}
use ferumind.DocumentMap.Sections.{SectionKind}
use ferumind.DocumentMap.Blocks.{BlockKind}
use ferumind.DocumentMap.Titles
use ferumind.DocumentMap.Build
use ferumind.DocumentMap.Build.{DocumentMap}
use ferumind.DocumentMap.Build.Laws.{IsMap, build_document_map-IsMap}
use ferumind.Tests.Sample.{sample, running}

-- A heading and a line of text, behind a frontmatter block of three lines.
abbrev outlined : Text
outlined = codes "# A" ++ newline ∷ codes "one"

abbrev short : Text
short = codes "---" ++ newline ∷ codes "x: y" ++ newline ∷ codes "---" ++ newline ∷ outlined

abbrev short_map : DocumentMap
short_map = record {
  project_key = codes "p";
  path = codes "notes/short.md";
  document_sha256 = short;
  title = codes "A";
  status = codes "active";
  total_lines = 5;
  frontmatter_range = some (record { start_line = 1; end_line = 3 });
  body_range = record { start_line = 4; end_line = 5 };
  sections =
      record {
        section_id = codes "a";
        kind = SectionKind.heading;
        heading_path = codes "A" ∷ [];
        heading_text = some (codes "A");
        level = some 1;
        start_line = 4;
        end_line = 5;
        content_sha256 = outlined;
        size_bytes = 7;
      }
      ∷ [];
  blocks =
      record {
        block_id = codes "block-1";
        kind = BlockKind.heading;
        section_id = some (codes "a");
        start_line = 4;
        end_line = 4;
        content_sha256 = codes "# A";
        preview = codes "# A";
      }
      ∷ record {
        block_id = codes "block-2";
        kind = BlockKind.paragraph;
        section_id = some (codes "a");
        start_line = 5;
        end_line = 5;
        content_sha256 = codes "one";
        preview = codes "one";
      }
      ∷ [];
  lines = none;
}

build_document_map_example : IsMap sample short true short_map
unfolding running Titles.h1_text Titles.find_h1 Titles.file_name Titles.remove_suffix
    Titles.frontmatter_title Titles.infer_title Build.status_of Build.body_text Build.line_models
    Build.build_document_map
build_document_map_example =
    build_document_map-IsMap sample short (codes "p") (codes "notes/short.md") true false refl
