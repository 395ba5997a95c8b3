-- ===== src/Patches/Search.antt =====
-- core/patches.py: search and replace within lines.
use ferumind.Common.{
  ℕ, zero, suc, Bool, true, false, not, ◌&&◌, ◌||◌, Option, none, some, List, [], ◌∷◌, ◌++◌, ltb,
  leb, ◌==◌, if◌then◌else◌, is_none, ℤ, pos, negsuc, Kind, Result, ok, ◌>>=◌, ◌>>◌, raise, raise_if,
  length, get_elem?, get_or, set, take, drop,
}
use ferumind.Text.{Text}
use ferumind.Text.Chars.{is_empty}
use ferumind.Text.Lines.{newline, split_lines, join_lines}
use ferumind.Runtime.{Runtime}
use ferumind.EditTargets.Matches.{RawMatch, Search, iter_matches, partition_matches_by_frontmatter}
use ferumind.Patches.{PreparedPatch, ProposalKind, Target, Occurrence, all, at, unset, finalize}

-- "\n" in find
unfoldable pub has_newline : Text → Bool
has_newline [] = false
has_newline (c ∷ cs) = (c == newline) || has_newline cs

-- expected is not None and count != expected
abbrev pub count_differs : ℕ → Option ℤ → Bool
count_differs count none = false
count_differs count (some (pos n)) = not (count == n)
count_differs count (some (negsuc n)) = true

-- The matches that `occurrence` selects from those of the body. The parameter is never `None` here.
unfoldable pub select_matches : List RawMatch → Occurrence → Option ℤ → Result (List RawMatch)
select_matches body all expected = do raise_if (is_none expected) Kind.ambiguous_match; ok body
select_matches body (at (pos zero)) expected = raise Kind.validation
select_matches body (at (negsuc n)) expected = raise Kind.validation
select_matches body (at (pos (suc n))) expected = elim (get_elem? body n) [
  | none ↦ raise Kind.match_not_found
  | some m ↦ ok (m ∷ [])
]
select_matches body unset expected = raise Kind.validation

-- m comes at or before n by (line_index, col_start)
abbrev pub at_or_before : RawMatch → RawMatch → Bool
at_or_before m n =
    ltb m.line_index n.line_index || ((m.line_index == n.line_index) && leb m.col_start n.col_start)

-- sorted(matches, key=..., reverse=True): equal keys keep their order.
unfoldable pub insert_match : RawMatch → List RawMatch → List RawMatch
insert_match m [] = m ∷ []
insert_match m (n ∷ ns) = if at_or_before n m then m ∷ n ∷ ns else n ∷ insert_match m ns

unfoldable pub sort_matches : List RawMatch → List RawMatch
sort_matches [] = []
sort_matches (m ∷ ms) = insert_match m (sort_matches ms)

-- line[:start] + replacement + line[end:]
abbrev pub splice : Text → ℕ → ℕ → Text → Text
splice text start stop replacement = take start text ++ (replacement ++ drop stop text)

-- The loop over the selected matches.
unfoldable pub replace_matches : Text → List RawMatch → List Text → List Text
replace_matches replacement [] lines = lines
replace_matches replacement (m ∷ ms) lines = replace_matches replacement ms (
    set lines m.line_index
      (splice (get_or lines m.line_index []) m.col_start m.col_end replacement))

unfoldable pub prepare_search_replace_patch :
    Runtime → Text → Search → Text → Occurrence → Option ℤ → Result PreparedPatch
prepare_search_replace_patch rt content q replacement occurrence expected_match_count = do
  raise_if (is_empty q.query) Kind.validation
  raise_if (has_newline q.query) Kind.validation
  let lines = split_lines content
  raw ← iter_matches rt lines q
  parts ← partition_matches_by_frontmatter content raw
  let body = parts.0
  raise_if (is_empty body && not (is_empty parts.1)) Kind.frontmatter_protected
  raise_if (is_empty body) Kind.match_not_found
  raise_if (count_differs (length body) expected_match_count) Kind.patch_conflict
  selected ← select_matches body occurrence expected_match_count
  let new_full = join_lines (replace_matches replacement (sort_matches selected) lines)
  finalized ← finalize rt content new_full
  ok (record {
    proposal_kind = ProposalKind.search_replace;
    new_full_content = finalized;
    target_before_sha256 = some (rt.sha256 q.query);
    target =
        Target.search_target q.query replacement q.mode q.case_sensitive q.include_code_blocks
          occurrence (length body);
  })
