-- ===== src/Patches/Insert.antt =====
-- core/patches.py: insertion at an anchor.
pub mod Laws
use ferumind.Common.{
  ℕ, ◌-◌, Bool, true, false, not, ◌||◌, Option, none, some, List, [], ◌++◌, ℤ, pos, int_lt, to_nat,
  Kind, Result, ok, ◌>>=◌, ◌>>◌, raise, raise_if, length, take, drop,
}
use ferumind.Text.{Text}
use ferumind.Text.Chars.{text_eq}
use ferumind.Text.Lines.{split_lines, join_lines}
use ferumind.Runtime.{Runtime}
use ferumind.DocumentMap.{hash_line_range, frontmatter_line_range}
use ferumind.EditTargets.{resolve_section, in_frontmatter}
use ferumind.EditTargets.Matches.{resolve_match_anchor_line}
use ferumind.Patches.{PreparedPatch, ProposalKind, Target, finalize}
use ferumind.Patches.{AnchorKind, line, section, match, end_of_file, Position, before, after}

pub record InsertAnchor : Type 0 where
  pub kind : AnchorKind
  pub position : Position
  pub line_number : Option ℤ
  pub section_id : Option Text
  pub match_text : Option Text
  pub match_occurrence : Option ℤ
  pub expected_anchor_sha256 : Option Text

-- expected is not None and actual != expected
abbrev pub hash_differs : Text → Option Text → Bool
hash_differs actual none = false
hash_differs actual (some expected) = not (text_eq actual expected)

-- _validate_anchor_hash
unfoldable pub validate_anchor_hash : Runtime → Text → ℕ → Option Text → Result (Unit {0})
validate_anchor_hash rt content line_number expected =
    raise_if
      (hash_differs (hash_line_range rt (split_lines content) line_number line_number) expected)
      Kind.target_hash_mismatch

-- The index before or after a line.
abbrev pub index_at : Position → ℕ → ℕ
index_at before line_number = line_number - 1
index_at after line_number = line_number

-- The anchor on a line.
unfoldable pub line_anchor_index : Runtime → Text → InsertAnchor → Result ℕ
line_anchor_index rt content anchor = do
  fm ← frontmatter_line_range content
  number ← elim anchor.line_number [ none ↦ raise Kind.validation | some n ↦ ok n ]
  raise_if (int_lt number (pos 1) || int_lt (pos (length (split_lines content))) number)
      Kind.validation
  let line_number = to_nat number
  raise_if (in_frontmatter fm.0 line_number) Kind.frontmatter_protected
  validate_anchor_hash rt content line_number anchor.expected_anchor_sha256
  ok (index_at anchor.position line_number)

-- The anchor on a section.
unfoldable pub section_anchor_index : Runtime → Text → InsertAnchor → Result ℕ
section_anchor_index rt content anchor = do
  frontmatter_line_range content
  section_id ← elim anchor.section_id [ none ↦ raise Kind.validation | some id ↦ ok id ]
  found ← resolve_section rt content section_id
  raise_if (hash_differs found.content_sha256 anchor.expected_anchor_sha256)
      Kind.target_hash_mismatch
  elim anchor.position [ before ↦ ok (found.start_line - 1) | after ↦ ok found.end_line ]

-- The anchor on a match.
unfoldable pub match_anchor_index : Runtime → Text → InsertAnchor → Result ℕ
match_anchor_index rt content anchor = do
  frontmatter_line_range content
  line_number ←
      resolve_match_anchor_line rt content (elim anchor.match_text [ none ↦ [] | some t ↦ t ])
        anchor.match_occurrence true
  validate_anchor_hash rt content line_number anchor.expected_anchor_sha256
  ok (index_at anchor.position line_number)

-- _resolve_insert_index
unfoldable pub resolve_insert_index : Runtime → Text → InsertAnchor → Result ℕ
resolve_insert_index rt content anchor = elim anchor.kind [
  | end_of_file ↦ do frontmatter_line_range content; ok (length (split_lines content))
  | line ↦ line_anchor_index rt content anchor
  | section ↦ section_anchor_index rt content anchor
  | match ↦ match_anchor_index rt content anchor
]

-- "\n".join(lines[:index] + insert_content.split("\n") + lines[index:])
unfoldable pub insert_lines : List Text → ℕ → Text → Text
insert_lines lines index insert_content =
    join_lines (take index lines ++ (split_lines insert_content ++ drop index lines))

unfoldable pub prepare_insert_patch : Runtime → Text → InsertAnchor → Text → Result PreparedPatch
prepare_insert_patch rt content anchor insert_content = do
  index ← resolve_insert_index rt content anchor
  let new_full = insert_lines (split_lines content) index insert_content
  finalized ← finalize rt content new_full
  ok (record {
    proposal_kind = ProposalKind.insert;
    new_full_content = finalized;
    target_before_sha256 = anchor.expected_anchor_sha256;
    target =
        Target.insert_target anchor.kind anchor.position index anchor.line_number anchor.section_id
          anchor.match_text anchor.match_occurrence (rt.sha256 insert_content);
  })
