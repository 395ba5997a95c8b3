-- ===== src/Patches/Exact/Selection.antt =====
-- Which matches an exact replacement selects, and the text that it prepares.
use ferumind.Common.{
  ℕ, zero, suc, ◌+◌, ◌≤◌, ◌≡◌, refl, sym, ap, ◌∙◌, subst, Bool, true, false, not, Option, none,
  some, List, [], ◌∷◌, arith, if_elim, is_none, ℤ, pos, negsuc, Kind, ok, ◌>>=◌, ◌>>◌, raise_if,
  raise_at, raise_at_if, >>=-eq-ok, length, get_elem?, drop, filter,
}
use ferumind.Text.{Text}
use ferumind.Text.Chars.{is_empty, starts_with, text_eq}
use ferumind.Runtime.{Runtime}
use ferumind.DocumentMap.{LineRange, frontmatter_line_range}
use ferumind.EditTargets.{in_frontmatter}
use ferumind.EditTargets.Matches.{select, selected_index}
use ferumind.EditTargets.Exact.{ExactMatch, find_exact_matches}
use ferumind.EditTargets.Exact.LineNumbers.{line_of}
use ferumind.EditTargets.Exact.Scan.{AreMatches, find_exact_matches-AreMatches}
use ferumind.Patches.{PreparedPatch, Occurrence, all, at, unset, finalize}
use ferumind.Patches.Search.{count_differs}
use ferumind.Patches.Exact.{
  body_matches, select_exact_match, select_exact, sort_exact, replace_exact,
  prepare_exact_replace_patch,
}
use ferumind.Patches.Exact.Replace.{
  AreOrdered, AreOrdered-weaken, pieces, replace_exact-sort_exact, replace_all,
  AreMatches-replace_all,
}

-- A match of the old text that begins behind the frontmatter.
pub record IsBodyMatch (content old_string : Text) (fm_range : Option LineRange) (m : ExactMatch)
    : Type 0 where
  pub text : starts_with (drop m.start_offset content) old_string ≡ true
  pub stop : m.end_offset ≡ m.start_offset + length old_string
  pub inside : m.end_offset ≤ length content
  pub line : m.start_line ≡ line_of content m.start_offset
  pub behind : in_frontmatter fm_range m.start_line ≡ false

abbrev pub AreBodyMatches : Text → Text → Option LineRange → List ExactMatch → Type 0
AreBodyMatches content old fm [] = Unit
AreBodyMatches content old fm (m ∷ ms) =
    IsBodyMatch content old fm m × AreBodyMatches content old fm ms

abbrev behind_frontmatter : Option LineRange → List ExactMatch → List ExactMatch
behind_frontmatter fm = filter (λ m. not (in_frontmatter fm m.start_line))

filter-AreBodyMatches :
    (content old : Text) (fm : Option LineRange) (start : ℕ) (ms : List ExactMatch)
    → AreMatches content old start ms
    → AreBodyMatches content old fm (behind_frontmatter fm ms)
filter-AreBodyMatches content old fm start [] h = tt
filter-AreBodyMatches content old fm start (m ∷ ms) (a, b, c, d, e, f, g, rest) =
    let later = filter-AreBodyMatches content old fm m.end_offset ms rest in
    if_elim (AreBodyMatches content old fm) (not (in_frontmatter fm m.start_line)) _ _
      (λ body. (record { text = c; stop = d; inside = e; line = f; behind = ground arith }, later))
      λ protected. later

filter-AreOrdered :
    (content old : Text) (fm : Option LineRange) (start : ℕ) (ms : List ExactMatch)
    → 1 ≤ length old
    → AreMatches content old start ms
    → AreOrdered content start (behind_frontmatter fm ms)
filter-AreOrdered content old fm start [] lo h = tt
filter-AreOrdered content old fm start (m ∷ ms) lo (a, b, c, d, e, f, g, rest) =
    let later = filter-AreOrdered content old fm m.end_offset ms lo rest in
    if_elim (AreOrdered content start) (not (in_frontmatter fm m.start_line)) _ _
      (λ body. (a, omega arith, e, later))
      λ protected.
        AreOrdered-weaken content start m.end_offset (behind_frontmatter fm ms) (omega arith) later

get_elem?-AreBodyMatches :
    (content old : Text) (fm : Option LineRange) (ms : List ExactMatch) (i : ℕ) {m : ExactMatch}
    → AreBodyMatches content old fm ms
    → get_elem? ms i ≡ some m
    → IsBodyMatch content old fm m
get_elem?-AreBodyMatches content old fm [] i h e = absurd (cc)
get_elem?-AreBodyMatches content old fm (k ∷ ks) zero {m} (a, h) e =
    subst (IsBodyMatch content old fm) (let q : k ≡ m = cc in q) a
get_elem?-AreBodyMatches content old fm (k ∷ ks) (suc i) (a, h) e =
    get_elem?-AreBodyMatches content old fm ks i h e

select-AreBodyMatches :
    (content old : Text) (fm : Option LineRange) (ms : List ExactMatch) (i : ℤ) {m : ExactMatch}
    → AreBodyMatches content old fm ms
    → select ms i ≡ some m
    → IsBodyMatch content old fm m
select-AreBodyMatches content old fm ms (pos n) h e =
    get_elem?-AreBodyMatches content old fm ms n h e
select-AreBodyMatches content old fm ms (negsuc n) h e = absurd (cc)

body_matches-eq :
    (fm : Option LineRange) (ms : List ExactMatch) (index : Option ℕ) {body : List ExactMatch}
    → body_matches fm ms index ≡ ok body
    → behind_frontmatter fm ms ≡ body
unfolding body_matches
body_matches-eq fm ms index h = ground arith

-- The last step of `_select_exact_match`.
selected-eq :
    (ambiguous : Bool) (chosen : Option ExactMatch) (index : Option ℕ) {m : ExactMatch}
    → (raise_at_if ambiguous Kind.ambiguous_match index
        >> elim chosen [ none ↦ raise_at Kind.match_not_found index | some k ↦ ok k ])
      ≡ ok m
    → (ambiguous ≡ false) × (chosen ≡ some m)
selected-eq true chosen index h = absurd (cc)
selected-eq false none index h = absurd (cc)
selected-eq false (some k) index h = (refl, cc)

pub select_exact_match_lem :
    (content old : Text) (occurrence : Option ℤ) (index : Option ℕ) {m : ExactMatch}
    → select_exact_match content old occurrence index ≡ ok m
    → (fm : Option LineRange × ℕ) × (frontmatter_line_range content ≡ ok fm)
      × IsBodyMatch content old fm.0 m
unfolding select_exact_match
select_exact_match_lem content old occurrence index h =
    let (ms, e, h₁) = >>=-eq-ok (find_exact_matches content old) _ h in
    let (fm, f, h₂) = >>=-eq-ok (frontmatter_line_range content) _ h₁ in
    let (body, b, h₃) = >>=-eq-ok (body_matches fm.0 ms index) _ h₂ in
    let matched : AreBodyMatches content old fm.0 body =
      subst (AreBodyMatches content old fm.0) (body_matches-eq fm.0 ms index b) (
        filter-AreBodyMatches content old fm.0 0 ms
          (find_exact_matches-AreMatches content old ms e)) in
    let chosen = selected-eq _ (select body (selected_index occurrence)) index h₃ in
    (
      fm,
      f,
      select-AreBodyMatches content old fm.0 body (selected_index occurrence) matched chosen.1,
    )

-- The selected matches: each is a match of the body, and they are ordered.
pub record IsSelection (content old_string : Text) (ms : List ExactMatch) : Type 0 where
  pub fm : Option LineRange × ℕ
  pub range : frontmatter_line_range content ≡ ok fm
  pub matched : AreBodyMatches content old_string fm.0 ms
  pub ordered : AreOrdered content 0 ms

one-IsSelection :
    (content old : Text) (occurrence : Option ℤ) {m : ExactMatch}
    → 1 ≤ length old
    → select_exact_match content old occurrence none ≡ ok m
    → IsSelection content old (m ∷ [])
one-IsSelection content old occurrence lo h =
    let (fm, f, body) = select_exact_match_lem content old occurrence none h in
    let stop = body.stop in
    record {
      fm = fm;
      range = f;
      matched = (body, tt);
      ordered = (omega arith, omega arith, body.inside, tt);
    }

-- With `all`, the matches are all those behind the frontmatter, as many as the caller expects.
pub record IsAll (content old_string : Text) (expected : Option ℤ) (ms : List ExactMatch)
    : Type 0 where
  pub found : List ExactMatch
  pub scan : find_exact_matches content old_string ≡ ok found
  pub fm : Option LineRange × ℕ
  pub range : frontmatter_line_range content ≡ ok fm
  pub kept : behind_frontmatter fm.0 found ≡ ms
  pub confirmed : is_none expected ≡ false
  pub counted : count_differs (length ms) expected ≡ false

select_all-IsAll :
    (content old : Text) (expected : Option ℤ) {ms : List ExactMatch}
    → select_exact content old all expected ≡ ok ms
    → IsAll content old expected ms
unfolding select_exact
select_all-IsAll content old expected h =
    let (found, e, h₁) = >>=-eq-ok (find_exact_matches content old) _ h in
    let (fm, f, h₂) = >>=-eq-ok (frontmatter_line_range content) _ h₁ in
    let (body, b, h₃) = >>=-eq-ok (body_matches fm.0 found none) _ h₂ in
    let filtered = body_matches-eq fm.0 found none b in
    record {
      found = found;
      scan = e;
      fm = fm;
      range = f;
      kept = ground arith;
      confirmed = ground arith;
      counted = ground arith;
    }

all-IsSelection :
    (content old : Text) (expected : Option ℤ) {ms : List ExactMatch}
    → 1 ≤ length old
    → IsAll content old expected ms
    → IsSelection content old ms
all-IsSelection content old expected lo a =
    let scanned = find_exact_matches-AreMatches content old a.found a.scan in
    record {
      fm = a.fm;
      range = a.range;
      matched =
          subst (AreBodyMatches content old a.fm.0) a.kept
            (filter-AreBodyMatches content old a.fm.0 0 a.found scanned);
      ordered =
          subst (AreOrdered content 0) a.kept
            (filter-AreOrdered content old a.fm.0 0 a.found lo scanned);
    }

singleton-IsSelection :
    (content old : Text) (occurrence : Option ℤ) {ms : List ExactMatch}
    → 1 ≤ length old
    → (select_exact_match content old occurrence none >>= λ m. ok (m ∷ [])) ≡ ok ms
    → IsSelection content old ms
singleton-IsSelection content old occurrence {ms} lo h =
    let (m, e, k) = >>=-eq-ok (select_exact_match content old occurrence none) _ h in
    subst (IsSelection content old) (let q : m ∷ [] ≡ ms = cc in q)
      (one-IsSelection content old occurrence lo e)

select_exact-IsSelection :
    (content old : Text) (occurrence : Occurrence) (expected : Option ℤ) {ms : List ExactMatch}
    → 1 ≤ length old
    → select_exact content old occurrence expected ≡ ok ms
    → IsSelection content old ms
select_exact-IsSelection content old all expected lo h =
    all-IsSelection content old expected lo (select_all-IsAll content old expected h)
select_exact-IsSelection content old (at n) expected lo h =
    singleton-IsSelection content old (some n) lo (unfold select_exact in h)
select_exact-IsSelection content old unset expected lo h =
    singleton-IsSelection content old none lo (unfold select_exact in h)

-- What an exact replacement prepares: the selected matches are matches of the old text behind the
-- frontmatter, each is replaced by the new text, and all text between them is kept.
pub record IsExactPatch (rt : Runtime) (content old_string new_string : Text) (p : PreparedPatch)
    : Type 0 where
  pub selected : List ExactMatch
  pub selection : IsSelection content old_string selected
  pub finalized : finalize rt content (pieces new_string content 0 selected) ≡ ok p.new_full_content
  pub guard : p.target_before_sha256 ≡ some (rt.sha256 old_string)

NonEmpty_length : (t : Text) → is_empty t ≡ false → 1 ≤ length t
NonEmpty_length [] h = absurd (cc)
NonEmpty_length (c ∷ cs) h = omega arith

-- The steps of a patch that succeeds.
record IsPrepared (rt : Runtime) (content old new : Text) (occurrence : Occurrence)
    (expected : Option ℤ) (p : PreparedPatch) : Type 0 where
  long : 1 ≤ length old
  selected : List ExactMatch
  chosen : select_exact content old occurrence expected ≡ ok selected
  finalized :
      finalize rt content (replace_exact new (sort_exact selected) content) ≡ ok p.new_full_content
  guard : p.target_before_sha256 ≡ some (rt.sha256 old)

prepared :
    (rt : Runtime) (content old new : Text) (occurrence : Occurrence) (expected : Option ℤ)
    {p : PreparedPatch}
    → prepare_exact_replace_patch rt content old new occurrence expected ≡ ok p
    → IsPrepared rt content old new occurrence expected p
unfolding prepare_exact_replace_patch
prepared rt content old new occurrence expected h =
    let (_, e₁, h₁) = >>=-eq-ok (raise_if (is_empty old) Kind.validation) _ h in
    let (_, e₂, h₂) = >>=-eq-ok (raise_if (text_eq old new) Kind.validation) _ h₁ in
    let (selected, e₃, h₃) = >>=-eq-ok (select_exact content old occurrence expected) _ h₂ in
    let (text, e₄, h₄) =
      >>=-eq-ok (finalize rt content (replace_exact new (sort_exact selected) content)) _ h₃ in
    record {
      long = NonEmpty_length old (ground arith);
      selected = selected;
      chosen = e₃;
      finalized = ground arith;
      guard = ground arith;
    }

-- Where an exact replacement is prepared, the selected matches are matches of the old text that
-- begin behind the frontmatter, in order and apart; the text that passes the guard is the content
-- with each of them replaced by the new text and all text between them kept; and the guard hash is
-- that of the old text.
pub prepare_exact_replace_patch_lem :
    (rt : Runtime) (content old new : Text) (occurrence : Occurrence) (expected : Option ℤ)
    {p : PreparedPatch}
    → prepare_exact_replace_patch rt content old new occurrence expected ≡ ok p
    → IsExactPatch rt content old new p
prepare_exact_replace_patch_lem rt content old new occurrence expected {p} h =
    let q = prepared rt content old new occurrence expected h in
    let selection = select_exact-IsSelection content old occurrence expected q.long q.chosen in
    let pieced =
      replace_exact-sort_exact new content 0 q.selected (omega arith) selection.ordered in
    record {
      selected = q.selected;
      selection = selection;
      finalized = subst (λ t. finalize rt content t ≡ ok p.new_full_content) pieced q.finalized;
      guard = q.guard;
    }

filter_all_unprotected : (ms : List ExactMatch) → behind_frontmatter none ms ≡ ms
filter_all_unprotected [] = refl
filter_all_unprotected (m ∷ ms) = ap (λ t. m ∷ t) (filter_all_unprotected ms)

-- In a document with no frontmatter, a prepared replacement of all occurrences gives the
-- left-to-right replacement of every occurrence that does not overlap an earlier one.
pub prepare_exact_replace_patch-replace_all :
    (rt : Runtime) (content old new : Text) (expected : Option ℤ) {p : PreparedPatch}
    → frontmatter_line_range content ≡ ok (none, 1)
    → prepare_exact_replace_patch rt content old new all expected ≡ ok p
    → finalize rt content (replace_all old new 0 content) ≡ ok p.new_full_content
prepare_exact_replace_patch-replace_all rt content old new expected {p} bare h =
    let q = prepared rt content old new all expected h in
    let a = select_all-IsAll content old expected q.chosen in
    let selection = all-IsSelection content old expected q.long a in
    let pieced =
      replace_exact-sort_exact new content 0 q.selected (omega arith) selection.ordered in
    let none_protected : a.fm.0 ≡ none = (let r = a.range in cc) in
    let everything : a.found ≡ q.selected =
      sym (filter_all_unprotected a.found)
      ∙ ap (λ fm. behind_frontmatter fm a.found) (sym none_protected)
      ∙ a.kept in
    let scanned =
      subst (AreMatches content old 0) everything
        (find_exact_matches-AreMatches content old a.found a.scan) in
    subst (λ t. finalize rt content t ≡ ok p.new_full_content)
      (pieced ∙ AreMatches-replace_all content old new 0 q.selected q.long scanned) q.finalized
