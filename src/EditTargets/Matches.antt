-- ===== src/EditTargets/Matches.antt =====
-- core/edit_targets.py: matches within lines, `find_in_document`, and match anchors.
pub mod Anchors
use ferumind.Common.{
  ℕ, zero, suc, ◌+◌, ◌-◌, max, Bool, true, false, not, ◌&&◌, ◌||◌, Option, none, some, List, [],
  ◌∷◌, ◌++◌, ltb, ◌==◌, if◌then◌else◌, is_none, ℤ, pos, negsuc, int_lt, to_nat, Kind, Result, ok,
  ◌>>=◌, ◌>>◌, raise, raise_if, length, get_elem?, get_or, take, drop, filter,
}
use ferumind.Text.{Text}
use ferumind.Text.Chars.{codes, is_empty}
use ferumind.Text.Lines.{split_lines}
use ferumind.Text.Find.{find_from}
use ferumind.Runtime.{Runtime}
use ferumind.DocumentMap.{frontmatter_line_range}
use ferumind.DocumentMap.Ids.{decimal}
use ferumind.EditTargets.{in_frontmatter, max_matches, max_regex_query_chars}
use ferumind.EditTargets.{max_literal_query_chars, max_find_limit, max_context_lines}
use ferumind.EditTargets.Fences.{code_fence_line_set, has_line}

pub data FindMode : Type 0 where
  literal regex : FindMode

-- The query and its options.
pub record Search : Type 0 where
  pub query : Text
  pub mode : FindMode
  pub case_sensitive : Bool
  pub include_code_blocks : Bool

-- Lines and columns are counted from 0.
pub record RawMatch : Type 0 where
  pub line_index : ℕ
  pub col_start : ℕ
  pub col_end : ℕ
  pub text : Text

-- text[start:stop]
abbrev pub substring : Text → ℕ → ℕ → Text
substring text start stop = drop start (take stop text)

-- `line if case_sensitive else line.lower()`
unfoldable pub fold_case : Runtime → Bool → Text → Text
fold_case rt case_sensitive text = if case_sensitive then text else rt.lower text

-- The loop of `_iter_line_matches` in literal mode: the columns of each match.
unfoldable pub literal_spans : ℕ → Text → Text → ℕ → ℕ → Result (List (ℕ × ℕ))
literal_spans zero haystack needle query_len start = raise Kind.out_of_fuel
literal_spans (suc fuel) haystack needle query_len start = elim (find_from haystack needle start) [
  | none ↦ ok []
  | some found ↦ do
    later ← literal_spans fuel haystack needle query_len (found + max 1 (length needle))
    ok ((found, found + query_len) ∷ later)
]

-- An empty match of a regular expression is passed over.
abbrev proper_spans : List (ℕ × ℕ) → List (ℕ × ℕ)
proper_spans = filter (λ (a, b). not (a == b))

-- _iter_line_matches: the columns of the matches that it yields, and whether the deadline for a
-- regular expression passes behind them
unfoldable pub line_spans : Runtime → Search → Text → Result (List (ℕ × ℕ) × Bool)
line_spans rt q line = elim q.mode [
  | regex ↦
      let (spans, timed_out) = rt.finditer q.query (not q.case_sensitive) line in
      ok (proper_spans spans, timed_out)
  | literal ↦ do
    let haystack = fold_case rt q.case_sensitive line
    spans ←
        literal_spans (suc (suc (length haystack))) haystack (fold_case rt q.case_sensitive q.query)
          (length q.query) 0
    ok (spans, false)
]

abbrev raw_matches : ℕ → Text → List (ℕ × ℕ) → List RawMatch
raw_matches index line [] = []
raw_matches index line ((a, b) ∷ spans) =
    record { line_index = index; col_start = a; col_end = b; text = substring line a b }
    ∷ raw_matches index line spans

-- The loop of `iter_matches` from line `index` on, with the number of matches so far. The matches
-- of a line are counted before the deadline behind them is seen.
unfoldable pub matches_from : Runtime → Search → List ℕ → ℕ → ℕ → List Text → Result (List RawMatch)
matches_from rt q code_lines index count [] = ok []
matches_from rt q code_lines index count (line ∷ rest) = do
  yielded ←
      if not q.include_code_blocks && has_line code_lines (index + 1)
      then ok ([], false)
      else line_spans rt q line
  let count' = count + length yielded.0
  raise_if (ltb max_matches count') Kind.validation
  raise_if yielded.1 Kind.invalid_regex
  later ← matches_from rt q code_lines (index + 1) count' rest
  ok (raw_matches index line yielded.0 ++ later)

-- _compile_regex
unfoldable pub check_query : Runtime → Search → Result (Unit {0})
check_query rt q = elim q.mode [
  | literal ↦ raise_if (ltb max_literal_query_chars (length q.query)) Kind.validation
  | regex ↦ do
    raise_if (ltb max_regex_query_chars (length q.query)) Kind.invalid_regex
    raise_if (not (rt.compiles q.query (not q.case_sensitive))) Kind.invalid_regex
]

unfoldable pub iter_matches : Runtime → List Text → Search → Result (List RawMatch)
iter_matches rt lines q = do
  check_query rt q
  let code_lines = if q.include_code_blocks then [] else code_fence_line_set lines
  matches_from rt q code_lines 0 0 lines

-- partition_matches_by_frontmatter: the matches of the body, and those of the frontmatter
unfoldable pub partition_matches_by_frontmatter :
    Text → List RawMatch → Result (List RawMatch × List RawMatch)
partition_matches_by_frontmatter content matches = do
  fm ← frontmatter_line_range content
  let protected = λ (m : RawMatch). in_frontmatter fm.0 (m.line_index + 1)
  ok (filter (λ m. not (protected m)) matches, filter protected matches)

pub record DocumentMatch : Type 0 where
  pub match_id : Text
  pub start_line : ℕ
  pub end_line : ℕ
  pub line_start_column : ℕ
  pub line_end_column : ℕ
  pub matched_text : Text
  pub context_before : List Text
  pub context_after : List Text
  pub range_sha256 : Text

pub record FindInDocumentResult : Type 0 where
  pub project_key : Text
  pub path : Text
  pub document_sha256 : Text
  pub query : Text
  pub mode : FindMode
  pub matches : List DocumentMatch
  pub count : ℕ

-- One entry of the result, for the match at a position counted from 1.
document_match : Runtime → List Text → ℕ → ℕ → RawMatch → DocumentMatch
document_match rt lines context position raw = record {
  match_id = codes "match-" ++ decimal position;
  start_line = raw.line_index + 1;
  end_line = raw.line_index + 1;
  line_start_column = raw.col_start + 1;
  line_end_column = raw.col_end + 1;
  matched_text = raw.text;
  context_before = drop (raw.line_index - context) (take raw.line_index lines);
  context_after = drop (raw.line_index + 1) (take (raw.line_index + 1 + context) lines);
  range_sha256 = rt.sha256 (get_or lines raw.line_index []);
}

document_matches : Runtime → List Text → ℕ → ℕ → List RawMatch → List DocumentMatch
document_matches rt lines context position [] = []
document_matches rt lines context position (raw ∷ rest) =
    document_match rt lines context position raw
    ∷ document_matches rt lines context (suc position) rest

unfoldable pub find_in_document :
    Runtime → Text → Text → Text → Search → ℤ → ℤ → Result FindInDocumentResult
unfolding document_matches document_match
find_in_document rt content project_key path q include_context_lines limit = do
  raise_if (is_empty q.query) Kind.validation
  raise_if (int_lt limit (pos 1) || int_lt (pos max_find_limit) limit) Kind.validation
  raise_if
      (int_lt include_context_lines (pos 0) || int_lt (pos max_context_lines) include_context_lines)
      Kind.validation
  let lines = split_lines content
  raw ← iter_matches rt lines q
  ok (record {
    project_key = project_key;
    path = path;
    document_sha256 = rt.sha256 content;
    query = q.query;
    mode = q.mode;
    matches = document_matches rt lines (to_nat include_context_lines) 1 (take (to_nat limit) raw);
    count = length raw;
  })

-- (occurrence or 1) - 1
abbrev pub selected_index : Option ℤ → ℤ
selected_index none = pos 0
selected_index (some (pos zero)) = pos 0
selected_index (some (pos (suc n))) = pos n
selected_index (some (negsuc n)) = negsuc (suc n)

-- items[index], where a negative or too large index is refused
abbrev pub select {ℓ} : {A : Type ℓ} → List A → ℤ → Option A
select items (pos n) = get_elem? items n
select items (negsuc n) = none

unfoldable pub resolve_match_anchor_line : Runtime → Text → Text → Option ℤ → Bool → Result ℕ
resolve_match_anchor_line rt content match_text occurrence include_code_blocks = do
  raise_if (is_empty match_text) Kind.validation
  matches ← iter_matches rt (split_lines content) (record {
    query = match_text;
    mode = literal;
    case_sensitive = true;
    include_code_blocks = include_code_blocks;
  })
  parts ← partition_matches_by_frontmatter content matches
  let body = parts.0
  raise_if (not (is_empty parts.1) && is_empty body) Kind.frontmatter_protected
  raise_if (is_empty body) Kind.match_not_found
  raise_if (ltb 1 (length body) && is_none occurrence) Kind.ambiguous_match
  elim (select body (selected_index occurrence)) [
    | none ↦ raise Kind.match_not_found
    | some m ↦ ok (m.line_index + 1)
  ]
