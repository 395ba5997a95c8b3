-- ===== src/DocumentMap.antt =====
-- core/document_map.py: line ranges, and the range of the frontmatter.
pub mod Headings
pub mod Ids
pub mod Sections
pub mod Blocks
pub mod Reads
pub mod Body
pub mod Titles
pub mod Build
use ferumind.Common.{
  ℕ, zero, suc, ◌+◌, ◌-◌, ◌*◌, ◌/◌, ◌%◌, ◌≤◌, ◌<◌, min, max, ◌≡◌, refl, sym, ap, ◌∙◌, subst, ◌≡⟨◌⟩◌,
  ◌∎, ◌≢◌, ◌↔◌, ◌⊎◌, inl, inr, Bool, true, false, not, ◌&&◌, ◌||◌, Option, none, some, List, [],
  ◌∷◌, ◌++◌, map, append-nil, append_assoc, arith, ltb, leb, ◌==◌, if◌then◌else◌, ==_iff, ==_refl,
  leb→le, ltb→lt, Bool-cases, Option-cases, ℤ, pos, negsuc, int_lt, to_nat, Kind, Error, Result, ok,
  err, ◌>>=◌, ◌>>◌, raise, raise_if, >>=-eq-ok, length, get_elem?, get_or, set, take, drop,
  length-append, take-append-drop, length-take, length-drop, take-append_length, drop-append_length,
  drop-nil, take_all, drop_all, drop-suc-drop, take_of_append, drop_of_append, drop-drop,
  take-append-lt, drop-append-lt,
}
use ferumind.Text.{Text}
use ferumind.Text.Chars.{is_empty}
use ferumind.Text.Lines.{newline, split_lines, join_lines}
use ferumind.Runtime.{Runtime}
use ferumind.Frontmatter.{extract_frontmatter_block}

abbrev pub max_range_lines_default : ℕ
max_range_lines_default = 300

abbrev pub max_lines_in_map : ℕ
max_lines_in_map = 5000

abbrev pub max_structure_lines : ℕ
max_structure_lines = 100_000

-- Both ends are counted from 1 and included.
pub record LineRange : Type 0 where
  pub start_line : ℕ
  pub end_line : ℕ

-- lines[start - 1 : end], for a start of at least 1
abbrev pub slice {ℓ} : {A : Type ℓ} → List A → ℕ → ℕ → List A
slice lines start stop = drop (start - 1) (take stop lines)

-- hash_line_range
unfoldable pub hash_line_range : Runtime → List Text → ℕ → ℕ → Text
hash_line_range rt lines start_line end_line =
    rt.sha256 (join_lines (slice lines start_line end_line))

-- text.endswith("\n")
unfoldable pub ends_in_newline : Text → Bool
ends_in_newline [] = false
ends_in_newline (c ∷ []) = c == newline
ends_in_newline (c ∷ d ∷ cs) = ends_in_newline (d ∷ cs)

-- The last line of a frontmatter block.
unfoldable pub block_end_line : Text → ℕ
block_end_line fm_block =
    let fm_lines = split_lines fm_block in
    if ends_in_newline fm_block then length fm_lines - 1 else length fm_lines

-- frontmatter_line_range: the range, if there is a block, and the first line of the body
unfoldable pub frontmatter_line_range : Text → Result (Option LineRange × ℕ)
frontmatter_line_range content = do
  split ← extract_frontmatter_block content
  let fm_end_line = block_end_line split.0
  if is_empty split.0
      then ok (none, 1)
      else ok (some (record { start_line = 1; end_line = fm_end_line }), fm_end_line + 1)
