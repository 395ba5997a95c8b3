-- ===== src/Patches/Exact.antt =====
-- core/patches.py: exact replacement, and batches of exact edits.
pub mod Replace
pub mod Selection
pub mod Batch
use ferumind.Common.{
  ℕ, ◌+◌, not, ◌&&◌, Option, none, some, List, [], ◌∷◌, map, ltb, leb, if◌then◌else◌, is_none, ℤ,
  Kind, Result, ok, ◌>>=◌, ◌>>◌, raise_if, raise_at, raise_at_if, length, filter,
}
use ferumind.Text.{Text}
use ferumind.Text.Chars.{is_empty, text_eq}
use ferumind.Runtime.{Runtime}
use ferumind.DocumentMap.{LineRange, frontmatter_line_range}
use ferumind.EditTargets.{in_frontmatter}
use ferumind.EditTargets.Matches.{selected_index, select}
use ferumind.EditTargets.Exact.{ExactMatch, find_exact_matches}
use ferumind.Patches.{PreparedPatch, ProposalKind, Target, Occurrence, all, at, unset, finalize}
use ferumind.Patches.{AppliedEdit}
use ferumind.Patches.Search.{splice, count_differs}

abbrev pub max_multi_edits : ℕ
max_multi_edits = 25

pub record ExactEdit : Type 0 where
  pub old_string : Text
  pub new_string : Text
  pub occurrence : Option ℤ

-- The matches behind the frontmatter, where the error carries an edit's index if one is given.
unfoldable pub body_matches :
    Option LineRange → List ExactMatch → Option ℕ → Result (List ExactMatch)
body_matches fm_range matches index = do
  let body = filter (λ (m : ExactMatch). not (in_frontmatter fm_range m.start_line)) matches
  raise_at_if (not (is_empty matches) && is_empty body) Kind.frontmatter_protected index
  raise_at_if (is_empty body) Kind.match_not_found index
  ok body

-- _select_exact_match
unfoldable pub select_exact_match : Text → Text → Option ℤ → Option ℕ → Result ExactMatch
select_exact_match content old_string occurrence index = do
  matches ← find_exact_matches content old_string
  fm ← frontmatter_line_range content
  body ← body_matches fm.0 matches index
  raise_at_if (ltb 1 (length body) && is_none occurrence) Kind.ambiguous_match index
  elim (select body (selected_index occurrence)) [
    | none ↦ raise_at Kind.match_not_found index
    | some m ↦ ok m
  ]

-- The matches that `occurrence` selects.
unfoldable pub select_exact : Text → Text → Occurrence → Option ℤ → Result (List ExactMatch)
select_exact content old_string all expected = do
  matches ← find_exact_matches content old_string
  fm ← frontmatter_line_range content
  body ← body_matches fm.0 matches none
  raise_if (is_none expected) Kind.ambiguous_match
  raise_if (count_differs (length body) expected) Kind.patch_conflict
  ok body
select_exact content old_string (at n) expected = do
  m ← select_exact_match content old_string (some n) none
  ok (m ∷ [])
select_exact content old_string unset expected = do
  m ← select_exact_match content old_string none none
  ok (m ∷ [])

-- sorted(matches, key=start_offset, reverse=True): equal keys keep their order.
unfoldable pub insert_exact : ExactMatch → List ExactMatch → List ExactMatch
insert_exact m [] = m ∷ []
insert_exact m (n ∷ ns) =
    if leb n.start_offset m.start_offset then m ∷ n ∷ ns else n ∷ insert_exact m ns

unfoldable pub sort_exact : List ExactMatch → List ExactMatch
sort_exact [] = []
sort_exact (m ∷ ms) = insert_exact m (sort_exact ms)

-- The loop over the selected matches.
unfoldable pub replace_exact : Text → List ExactMatch → Text → Text
replace_exact new_string [] text = text
replace_exact new_string (m ∷ ms) text =
    replace_exact new_string ms (splice text m.start_offset m.end_offset new_string)

unfoldable pub prepare_exact_replace_patch :
    Runtime → Text → Text → Text → Occurrence → Option ℤ → Result PreparedPatch
prepare_exact_replace_patch rt content old_string new_string occurrence expected_match_count = do
  raise_if (is_empty old_string) Kind.validation
  raise_if (text_eq old_string new_string) Kind.validation
  selected ← select_exact content old_string occurrence expected_match_count
  let new_full = replace_exact new_string (sort_exact selected) content
  finalized ← finalize rt content new_full
  ok (record {
    proposal_kind = ProposalKind.exact_replace;
    new_full_content = finalized;
    target_before_sha256 = some (rt.sha256 old_string);
    target =
        Target.exact_target old_string new_string occurrence (length selected)
          (map (λ m. record { start_line = m.start_line; end_line = m.end_line }) selected);
  })

-- One round of the loop of `prepare_multi_edit_patch`: the new text, and the match.
unfoldable pub apply_edit : ℕ → ExactEdit → Text → Result (Text × ExactMatch)
apply_edit index edit working = do
  raise_at_if (is_empty edit.old_string) Kind.validation (some index)
  raise_at_if (text_eq edit.old_string edit.new_string) Kind.validation (some index)
  m ← select_exact_match working edit.old_string edit.occurrence (some index)
  ok (splice working m.start_offset m.end_offset edit.new_string, m)

-- The loop from an index on: the final text, and the entries of `applied`.
unfoldable pub apply_edits : ℕ → List ExactEdit → Text → Result (Text × List AppliedEdit)
apply_edits index [] working = ok (working, [])
apply_edits index (edit ∷ edits) working = do
  one ← apply_edit index edit working
  rest ← apply_edits (index + 1) edits one.0
  ok (
    rest.0,
    record {
      edit_index = index;
      start_line = one.1.start_line;
      end_line = one.1.end_line;
      occurrence = edit.occurrence;
      old_string = edit.old_string;
      new_string = edit.new_string;
    }
        ∷ rest.1,
  )

unfoldable pub prepare_multi_edit_patch : Runtime → Text → List ExactEdit → Result PreparedPatch
prepare_multi_edit_patch rt content edits = do
  raise_if (is_empty edits) Kind.validation
  raise_if (ltb max_multi_edits (length edits)) Kind.validation
  done ← apply_edits 0 edits content
  finalized ← finalize rt content done.0
  ok (record {
    proposal_kind = ProposalKind.multi_edit;
    new_full_content = finalized;
    target_before_sha256 = none;
    target = Target.multi_target (length edits) done.1;
  })
