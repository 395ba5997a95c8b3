-- ===== src/DocumentMap/Blocks/Cover.antt =====
-- The blocks of a document partition the lines of its body.
use ferumind.Common.{
  ℕ, zero, suc, ◌+◌, ◌-◌, ◌≤◌, ◌<◌, ◌≡◌, refl, not, List, [], ◌∷◌, arith, leb, length, take, drop,
  length-take, length-drop, filter, run_length-le,
}
use ferumind.Text.{Text}
use ferumind.Text.Chars.{strip, starts_with}
use ferumind.Runtime.{Runtime}
use ferumind.DocumentMap.Blocks.{is_blank, continues, line_kind}
use ferumind.DocumentMap.{slice}
use ferumind.DocumentMap.Sections.{DocumentSection}
use ferumind.DocumentMap.Blocks.{
  DocumentBlock, block_extent, fenced_lines, blocks_from, derive_blocks, activate,
}

-- The blocks follow one another from line `from` to the line in front of `to`.
abbrev pub ArePartition : ℕ → ℕ → List DocumentBlock → Type 0
ArePartition from to [] = from ≡ to
ArePartition from to (b ∷ bs) =
    (b.start_line ≡ from) × (from ≤ b.end_line) × ArePartition (suc b.end_line) to bs

fenced_lines-le : (fence : Text) (rest : List Text) → fenced_lines fence rest ≤ length rest
unfolding fenced_lines
fenced_lines-le fence rest =
    ground (arith, run_length-le (λ line. not (starts_with (strip line) fence)) rest)

block_extent-le :
    (rt : Runtime) (line : Text) (rest : List Text) → (block_extent rt line rest).1 ≤ length rest
unfolding block_extent
block_extent-le rt line rest = ground (
  arith,
  fenced_lines-le (take 3 (strip line)) rest,
  run_length-le is_blank rest,
  run_length-le (continues rt (line_kind rt line)) rest,
)

blocks_from-ArePartition :
    (rt : Runtime) (fuel : ℕ) (lines : List Text) (ln index to : ℕ)
    (sections active : List DocumentSection) (rest : List Text)
    → length rest < fuel
    → ln + length rest ≡ to
    → ArePartition ln to (blocks_from rt fuel lines ln index sections active rest)
blocks_from-ArePartition rt zero lines ln index to sections active rest lt e = absurd (omega arith)
blocks_from-ArePartition rt (suc fuel) lines ln index to sections active [] lt e =
    unfold blocks_from in omega arith
blocks_from-ArePartition rt (suc fuel) lines ln index to sections active (line ∷ rest) lt e =
    let more = (block_extent rt line rest).1 in
    let fits = block_extent-le rt line rest in
    let moved = activate ln sections (filter (λ s. leb ln s.end_line) active) in
    let after =
      blocks_from-ArePartition rt fuel lines (suc (ln + more)) (index + 1) to moved.0 moved.1
        (drop more rest) (omega (arith, length-drop more rest))
        (omega (arith, length-drop more rest)) in
    stepped after
  where
    stepped :
        ArePartition (suc (ln + (block_extent rt line rest).1)) to (
          blocks_from rt fuel lines
            (suc (ln + (block_extent rt line rest).1))
            (index + 1)
            (activate ln sections (filter (λ s. leb ln s.end_line) active)).0
            (activate ln sections (filter (λ s. leb ln s.end_line) active)).1
            (drop (block_extent rt line rest).1 rest))
        → ArePartition ln to
            (blocks_from rt (suc fuel) lines ln index sections active (line ∷ rest))
    stepped after = unfold blocks_from in (refl, omega arith, after)

-- For a body that starts at a line from 1 to one behind the last, the blocks partition the lines
-- of the body: the first begins at its first line, each next one behind the one before, and the
-- last ends at the last line.
pub derive_blocks-ArePartition :
    (rt : Runtime) (lines : List Text) (body_start : ℕ) (sections : List DocumentSection)
    → 1 ≤ body_start
    → body_start ≤ suc (length lines)
    → ArePartition body_start
        (suc (length lines))
        (derive_blocks rt lines body_start (length lines) sections)
unfolding derive_blocks
derive_blocks-ArePartition rt lines body_start sections lo hi =
    blocks_from-ArePartition rt (suc (length lines)) lines body_start 0 (suc (length lines))
      sections [] (slice lines body_start (length lines))
      (omega (
        arith,
        length-drop (body_start - 1) (take (length lines) lines),
        length-take (length lines) lines,
      ))
      (omega (
        arith,
        length-drop (body_start - 1) (take (length lines) lines),
        length-take (length lines) lines,
      ))
