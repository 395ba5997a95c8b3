-- ===== src/EditTargets/Descriptors.antt =====
-- core/document_map.py: `section_target`.
use ferumind.Common.{ℕ, none, some, Kind, Result, ok, ◌>>=◌, raise, length}
use ferumind.Text.{Text}
use ferumind.Text.Lines.{split_lines}
use ferumind.Runtime.{Runtime}
use ferumind.DocumentMap.{frontmatter_line_range}
use ferumind.DocumentMap.Sections.{DocumentSection, derive_sections}
use ferumind.EditTargets.{find_section}

-- The object that is returned, its fields in the order of the source.
pub record SectionDescriptor : Type 0 where
  pub section_id : Text
  pub start_line : ℕ
  pub end_line : ℕ
  pub content_sha256 : Text

abbrev pub descriptor_of : DocumentSection → SectionDescriptor
descriptor_of s = record {
  section_id = s.section_id;
  start_line = s.start_line;
  end_line = s.end_line;
  content_sha256 = s.content_sha256;
}

unfoldable pub section_target : Runtime → Text → Text → Result SectionDescriptor
section_target rt content section_id = do
  fm ← frontmatter_line_range content
  let lines = split_lines content
  elim (find_section section_id (derive_sections rt lines fm.1 (length lines))) [
    | none ↦ raise Kind.section_not_found
    | some s ↦ ok (descriptor_of s)
  ]
