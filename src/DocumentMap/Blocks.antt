-- ===== src/DocumentMap/Blocks.antt =====
-- core/document_map.py: `derive_blocks` and its helpers.
pub mod Cover
use ferumind.Common.{
  ℕ, zero, suc, ◌+◌, ◌-◌, ◌*◌, ◌/◌, ◌%◌, ◌≤◌, ◌<◌, min, max, ◌≡◌, refl, sym, ap, ◌∙◌, subst, ◌≡⟨◌⟩◌,
  ◌∎, ◌≢◌, ◌↔◌, ◌⊎◌, inl, inr, Bool, true, false, not, ◌&&◌, ◌||◌, Option, none, some, List, [],
  ◌∷◌, ◌++◌, map, append-nil, append_assoc, arith, ltb, leb, ◌==◌, if◌then◌else◌, ==_iff, ==_refl,
  leb→le, ltb→lt, Bool-cases, Option-cases, if_elim, ℤ, pos, negsuc, int_lt, to_nat, Kind, Error,
  Result, ok, err, ◌>>=◌, ◌>>◌, raise, raise_if, >>=-eq-ok, length, get_elem?, get_or, set, take,
  drop, length-append, take-append-drop, length-take, length-drop, take-append_length,
  drop-append_length, drop-nil, take_all, drop_all, drop-suc-drop, take_of_append, drop_of_append,
  drop-drop, take-append-lt, drop-append-lt, filter, get_last?, run_length, run_length-le,
  filter-append,
}
use ferumind.Text.{Text}
use ferumind.Text.Chars.{
  codes, is_space, lstrip, strip, starts_with, is_empty, take_while, drop_while,
}
use ferumind.Runtime.{Runtime}
use ferumind.DocumentMap.{slice, hash_line_range}
use ferumind.DocumentMap.Headings.{is_fence, is_heading}
use ferumind.DocumentMap.Ids.{decimal}
use ferumind.DocumentMap.Sections.{DocumentSection}

pub data BlockKind : Type 0 where
  paragraph heading list code_fence blockquote table horizontal_rule blank unknown : BlockKind

pub record DocumentBlock : Type 0 where
  pub block_id : Text
  pub kind : BlockKind
  pub section_id : Option Text
  pub start_line : ℕ
  pub end_line : ℕ
  pub content_sha256 : Text
  pub preview : Text

-- The number of a kind, for comparisons.
kind_tag : BlockKind → ℕ
kind_tag paragraph = 0
kind_tag heading = 1
kind_tag list = 2
kind_tag code_fence = 3
kind_tag blockquote = 4
kind_tag table = 5
kind_tag horizontal_rule = 6
kind_tag blank = 7
kind_tag unknown = 8

-- A rule holds the mark and white space alone.
only_mark : ℕ → Text → Bool
only_mark mark [] = true
only_mark mark (c ∷ cs) = (c == mark || is_space c) && only_mark mark cs

count_mark : ℕ → Text → ℕ
count_mark mark [] = 0
count_mark mark (c ∷ cs) = (if c == mark then 1 else 0) + count_mark mark cs

-- _HR_RE.match(line)
unfoldable pub is_rule : Text → Bool
unfolding lstrip only_mark count_mark is_space
is_rule line = elim (lstrip line) [
  | [] ↦ false
  | mark ∷ cs ↦
      (mark == b'-' || mark == b'*' || mark == b'_')
      && only_mark mark cs
      && leb 2 (count_mark mark cs)
]

-- `\s+` behind a list mark
starts_with_space : Text → Bool
starts_with_space [] = false
starts_with_space (c ∷ cs) = is_space c

-- `[.)]\s+` behind the digits of a list item
ends_number : Text → Bool
ends_number [] = false
ends_number (c ∷ cs) = (c == b'.' || c == b')') && starts_with_space cs

is_blank : Text → Bool
is_blank line = is_empty (strip line)

-- The lines behind the opening fence that belong to the block.
fenced_lines : Text → List Text → ℕ
fenced_lines fence rest =
    let open_lines = run_length (λ line. not (starts_with (strip line) fence)) rest in
    if ltb open_lines (length rest) then open_lines + 1 else open_lines

-- _preview
unfoldable pub preview_of : List Text → Text
unfolding strip
preview_of [] = []
preview_of (line ∷ rest) =
    let text = strip line in if is_empty text then preview_of rest else take 80 text

-- The loop over `section_index`: the sections that stay, and the active ones.
unfoldable pub activate :
    ℕ → List DocumentSection → List DocumentSection → List DocumentSection × List DocumentSection
activate start [] active = ([], active)
activate start (s ∷ sections) active =
    let more =
      activate start sections (if leb start s.end_line then active ++ s ∷ [] else active) in
    if leb s.start_line start then more else (s ∷ sections, active)

module _ (rt : Runtime) where
  -- _LIST_RE.match(line)
  unfoldable pub is_list_item : Text → Bool
  unfolding lstrip drop_while starts_with_space ends_number is_space
  is_list_item line = elim (lstrip line) [
    | [] ↦ false
    | c ∷ cs ↦
        ((c == b'-' || c == b'*' || c == b'+') && starts_with_space cs)
        || (rt.is_decimal c && ends_number (drop_while rt.is_decimal cs))
  ]

  -- _BLOCKQUOTE_RE.match(line)
  unfoldable pub is_quote : Text → Bool
  unfolding lstrip starts_with
  is_quote line = starts_with (lstrip line) (b'>' ∷ [])

  -- _line_kind
  unfoldable pub line_kind : Text → BlockKind
  unfolding is_list_item is_quote count_mark
  line_kind line =
      if is_quote line
      then blockquote
      else if is_list_item line
      then list
      else if ltb 0 (count_mark b'|' line)
      then table
      else paragraph

  -- The line goes on with a block of lines of a kind.
  continues : BlockKind → Text → Bool
  continues kind line =
      not (is_blank line)
      && not (is_fence line)
      && not (is_heading line)
      && not (is_rule line)
      && (kind_tag (line_kind line) == kind_tag kind)

  -- The kind of the block that begins with a line, and how many lines behind it belong to it.
  pub block_extent : Text → List Text → BlockKind × ℕ
  block_extent line rest =
      if is_fence line
      then (code_fence, fenced_lines (take 3 (strip line)) rest)
      else if is_blank line
      then (blank, run_length is_blank rest)
      else if is_heading line
      then (heading, 0)
      else if is_rule line
      then (horizontal_rule, 0)
      else (line_kind line, run_length (continues (line_kind line)) rest)

  -- The loop of `derive_blocks` from line `ln` on.
  unfoldable pub blocks_from :
      ℕ
      → List Text
      → ℕ
      → ℕ
      → List DocumentSection
      → List DocumentSection
      → List Text
      → List DocumentBlock
  blocks_from zero lines ln index sections active rest = []
  blocks_from (suc fuel) lines ln index sections active [] = []
  blocks_from (suc fuel) lines ln index sections active (line ∷ rest) =
      let extent = block_extent line rest in
      let stop = ln + extent.1 in
      let still_open = filter (λ s. leb ln s.end_line) active in
      let moved = activate ln sections still_open in
      record {
        block_id = codes "block-" ++ decimal (index + 1);
        kind = extent.0;
        section_id = elim (get_last? moved.1) [ none ↦ none | some s ↦ some s.section_id ];
        start_line = ln;
        end_line = stop;
        content_sha256 = hash_line_range rt lines ln stop;
        preview = preview_of (slice lines ln stop);
      }
      ∷ blocks_from fuel lines (suc stop) (index + 1) moved.0 moved.1 (drop extent.1 rest)

  -- derive_blocks
  unfoldable pub derive_blocks : List Text → ℕ → ℕ → List DocumentSection → List DocumentBlock
  unfolding blocks_from block_extent is_blank continues kind_tag fenced_lines line_kind is_fence
      is_heading is_rule strip activate preview_of hash_line_range decimal
  derive_blocks lines body_start total_lines sections =
      blocks_from (suc total_lines) lines body_start 0 sections []
        (slice lines body_start total_lines)
