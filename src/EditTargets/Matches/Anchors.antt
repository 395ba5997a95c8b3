-- ===== src/EditTargets/Matches/Anchors.antt =====
-- Where a match anchor of core/edit_targets.py stands.
use ferumind.Common.{
  ℕ, zero, suc, ◌+◌, ◌≤◌, ◌<◌, ◌≡◌, refl, subst, inl, inr, Bool, true, false, not, ◌&&◌, Option,
  none, some, List, [], ◌∷◌, ◌++◌, arith, ltb, if◌then◌else◌, Bool-cases, is_none, ℤ, pos, negsuc,
  Kind, ok, raise, raise_if, >>=-eq-ok, length, get_elem?, drop, filter,
}
use ferumind.Text.{Text}
use ferumind.Text.Chars.{is_empty}
use ferumind.Text.Lines.{split_lines}
use ferumind.Runtime.{Runtime}
use ferumind.DocumentMap.{LineRange, frontmatter_line_range}
use ferumind.EditTargets.{in_frontmatter, max_matches}
use ferumind.EditTargets.Fences.{code_fence_line_set, has_line}
use ferumind.EditTargets.Matches.{
  Search, RawMatch, FindMode, raw_matches, line_spans, matches_from, check_query, iter_matches,
  partition_matches_by_frontmatter, select, selected_index, resolve_match_anchor_line,
}

-- Each match stands on one of the first `n` lines.
abbrev pub AreBelow : ℕ → List RawMatch → Type 0
AreBelow n [] = Unit
AreBelow n (m ∷ ms) = (m.line_index < n) × AreBelow n ms

raw_matches-AreBelow :
    (n index : ℕ) (line : Text) (spans : List (ℕ × ℕ)) (later : List RawMatch)
    → index < n
    → AreBelow n later
    → AreBelow n (raw_matches index line spans ++ later)
raw_matches-AreBelow n index line [] later lt h = h
raw_matches-AreBelow n index line ((a, b) ∷ spans) later lt h =
    (lt, raw_matches-AreBelow n index line spans later lt h)

matches_from-AreBelow :
    (rt : Runtime) (q : Search) (code_lines : List ℕ) (index count : ℕ) (lines : List Text)
    {ms : List RawMatch}
    → matches_from rt q code_lines index count lines ≡ ok ms
    → AreBelow (index + length lines) ms
unfolding matches_from
matches_from-AreBelow rt q code_lines index count [] {ms} h =
    subst (AreBelow (index + 0)) (let e : drop 0 (let t : List RawMatch = [] in t) ≡ ms = cc in e)
      tt
matches_from-AreBelow rt q code_lines index count (line ∷ rest) {ms} h =
    let ((spans, timed_out), e, h₁) =
      >>=-eq-ok
        (if not q.include_code_blocks && has_line code_lines (index + 1)
          then ok ([], false)
          else line_spans rt q line)
        _ h in
    let (_, f, h₂) =
      >>=-eq-ok (raise_if (ltb max_matches (count + length spans)) Kind.validation) _ h₁ in
    let (_, _, h₃) = >>=-eq-ok (raise_if timed_out Kind.invalid_regex) _ h₂ in
    let (later, g, _) =
      >>=-eq-ok (matches_from rt q code_lines (index + 1) (count + length spans) rest) _ h₃ in
    let below = matches_from-AreBelow rt q code_lines (index + 1) (count + length spans) rest g in
    let moved : AreBelow (index + suc (length rest)) later =
      subst (λ n. AreBelow n later)
        (let s : index + 1 + length rest ≡ index + suc (length rest) = omega arith in s) below in
    subst (AreBelow (index + suc (length rest)))
      (let s : raw_matches index line spans ++ later ≡ ms = cc in s)
      (raw_matches-AreBelow (index + suc (length rest)) index line spans later (omega arith) moved)

filter-AreBelow :
    (n : ℕ) (p : RawMatch → Bool) (ms : List RawMatch) (i : ℕ) {m : RawMatch}
    → AreBelow n ms
    → get_elem? (filter p ms) i ≡ some m
    → (m.line_index < n) × (p m ≡ true)
filter-AreBelow n p [] i h e = absurd (cc)
filter-AreBelow n p (k ∷ ks) i {m} (a, h) e = elim (Bool-cases (p k)) [
  | inl kept ↦ filter_cons n p k ks i kept a (λ j. filter-AreBelow n p ks j h) e
  | inr dropped ↦ filter-AreBelow n p ks i h (ground arith)
]
  where
    filter_cons :
        (n : ℕ) (p : RawMatch → Bool) (k : RawMatch) (ks : List RawMatch) (i : ℕ)
        → p k ≡ true
        → k.line_index < n
        → ((j : ℕ) → get_elem? (filter p ks) j ≡ some m → (m.line_index < n) × (p m ≡ true))
        → get_elem? (filter p (k ∷ ks)) i ≡ some m
        → (m.line_index < n) × (p m ≡ true)
    filter_cons n p k ks zero kept a later e =
        let q : k ≡ m = ground arith in subst (λ x. (x.line_index < n) × (p x ≡ true)) q (a, kept)
    filter_cons n p k ks (suc j) kept a later e = later j (ground arith)

select-AreBelow :
    (n : ℕ) (p : RawMatch → Bool) (ms : List RawMatch) (i : ℤ) {m : RawMatch}
    → AreBelow n ms
    → select (filter p ms) i ≡ some m
    → (m.line_index < n) × (p m ≡ true)
select-AreBelow n p ms (pos i) h e = filter-AreBelow n p ms i h e
select-AreBelow n p ms (negsuc i) h e = absurd (cc)

iter_matches-AreBelow :
    (rt : Runtime) (lines : List Text) (q : Search) {ms : List RawMatch}
    → iter_matches rt lines q ≡ ok ms
    → AreBelow (length lines) ms
unfolding iter_matches
iter_matches-AreBelow rt lines q {ms} h =
    let (_, e, k) = >>=-eq-ok (check_query rt q) _ h in
    subst (λ n. AreBelow n ms) (let z : 0 + length lines ≡ length lines = omega arith in z)
      (matches_from-AreBelow rt q (if q.include_code_blocks then [] else code_fence_line_set lines)
        0 0 lines k)

partition_body :
    (content : Text) (ms : List RawMatch) {fm : Option LineRange × ℕ}
    {parts : List RawMatch × List RawMatch}
    → frontmatter_line_range content ≡ ok fm
    → partition_matches_by_frontmatter content ms ≡ ok parts
    → parts.0 ≡ filter (λ m. not (in_frontmatter fm.0 (m.line_index + 1))) ms
unfolding partition_matches_by_frontmatter
partition_body content ms e h = ground arith

-- The last step of `resolve_match_anchor_line`.
anchored :
    (chosen : Option RawMatch) {line : ℕ}
    → elim chosen [ none ↦ raise Kind.match_not_found | some m ↦ ok (m.line_index + 1) ] ≡ ok line
    → (m : RawMatch) × (chosen ≡ some m) × (line ≡ m.line_index + 1)
anchored none h = absurd (cc)
anchored (some m) h = (m, refl, cc)

-- Where a match anchor is resolved, its line stands inside the document and not in the frontmatter.
pub resolve_match_anchor_line_bounds :
    (rt : Runtime) (content match_text : Text) (occurrence : Option ℤ) (include_code_blocks : Bool)
    {line : ℕ} {fm : Option LineRange × ℕ}
    → frontmatter_line_range content ≡ ok fm
    → resolve_match_anchor_line rt content match_text occurrence include_code_blocks ≡ ok line
    → (1 ≤ line) × (line ≤ length (split_lines content)) × (in_frontmatter fm.0 line ≡ false)
unfolding resolve_match_anchor_line
resolve_match_anchor_line_bounds rt content match_text occurrence include_code_blocks {line} {fm} e
      h =
    let (_, _, h₁) = >>=-eq-ok (raise_if (is_empty match_text) Kind.validation) _ h in
    let q : Search = record {
      query = match_text;
      mode = FindMode.literal;
      case_sensitive = true;
      include_code_blocks = include_code_blocks;
    } in
    let (ms, f, h₂) = >>=-eq-ok (iter_matches rt (split_lines content) q) _ h₁ in
    let (parts, g, h₃) = >>=-eq-ok (partition_matches_by_frontmatter content ms) _ h₂ in
    let (_, _, h₄) =
      >>=-eq-ok (raise_if (not (is_empty parts.1) && is_empty parts.0) Kind.frontmatter_protected) _
        h₃ in
    let (_, _, h₅) = >>=-eq-ok (raise_if (is_empty parts.0) Kind.match_not_found) _ h₄ in
    let (_, _, h₆) =
      >>=-eq-ok (raise_if (ltb 1 (length parts.0) && is_none occurrence) Kind.ambiguous_match) _
        h₅ in
    let (m, chosen, at) = anchored (select parts.0 (selected_index occurrence)) h₆ in
    let (below, kept) =
      select-AreBelow (length (split_lines content))
        (λ m. not (in_frontmatter fm.0 (m.line_index + 1))) ms (selected_index occurrence)
        (iter_matches-AreBelow rt (split_lines content) q f)
        (subst (λ b. select b (selected_index occurrence) ≡ some m) (partition_body content ms e g)
          chosen) in
    (omega arith, omega arith, rw at (ground arith))
