-- ===== src/EditTargets/Exact/Scan.antt =====
-- `find_exact_matches` finds the leftmost matches that do not overlap, and its loop ends.
use ferumind.Common.{
  ℕ, zero, suc, ◌+◌, ◌-◌, ◌≤◌, ◌<◌, max, ◌≡◌, refl, ap, ◌∙◌, subst, ◌⊎◌, inl, inr, Bool, true,
  false, none, some, List, [], ◌∷◌, arith, ltb, Bool-cases, Option-cases, Kind, Error, Result, ok,
  err, ◌>>=◌, raise_if, >>=-eq-ok, length, drop, length-drop, drop_all, drop-drop,
}
use ferumind.Text.{Text}
use ferumind.Text.Chars.{starts_with}
use ferumind.Text.Find.{find, find_from, find-starts_with}
use ferumind.EditTargets.{max_matches}
use ferumind.EditTargets.Exact.{
  ExactMatch, exact_match, exact_matches_from, find_exact_matches, line_starts,
}
use ferumind.EditTargets.Exact.LineNumbers.{line_of, line_number_at_offset-line_of}

-- The needle does not begin at any of the first `n` places of a text.
abbrev pub NoMatchBefore : ℕ → Text → Text → Type 0
NoMatchBefore zero hay needle = Unit
NoMatchBefore (suc n) [] needle = Unit
NoMatchBefore (suc n) (c ∷ cs) needle =
    (starts_with (c ∷ cs) needle ≡ false) × NoMatchBefore n cs needle

-- It begins nowhere in the text.
abbrev pub NoMatch : Text → Text → Type 0
NoMatch hay needle = NoMatchBefore (length hay) hay needle

find-NoMatchBefore :
    (hay needle : Text) (k : ℕ) → find hay needle ≡ some k → NoMatchBefore k hay needle
unfolding find
find-NoMatchBefore [] needle zero h = tt
find-NoMatchBefore [] needle (suc k) h = tt
find-NoMatchBefore (c ∷ cs) needle zero h = tt
find-NoMatchBefore (c ∷ cs) needle (suc k) h =
    (ground arith, find-NoMatchBefore cs needle k (ground arith))

find-NoMatch : (hay needle : Text) → find hay needle ≡ none → NoMatch hay needle
unfolding find
find-NoMatch [] needle h = tt
find-NoMatch (c ∷ cs) needle h = (ground arith, find-NoMatch cs needle (ground arith))

-- The matches of a needle from an offset on: each begins at the first place behind the one before
-- it, covers the needle, and carries its lines; behind the last the needle begins nowhere.
abbrev pub AreMatches : Text → Text → ℕ → List ExactMatch → Type 0
AreMatches content needle start [] = NoMatch (drop start content) needle
AreMatches content needle start (m ∷ ms) =
    (start ≤ m.start_offset)
    × NoMatchBefore (m.start_offset - start) (drop start content) needle
    × (starts_with (drop m.start_offset content) needle ≡ true)
    × (m.end_offset ≡ m.start_offset + length needle)
    × (m.end_offset ≤ length content)
    × (m.start_line ≡ line_of content m.start_offset)
    × (m.end_line ≡ line_of content (m.end_offset - 1))
    × AreMatches content needle m.end_offset ms

find_from-cases :
    (hay needle : Text) (start found : ℕ)
    → find_from hay needle start ≡ some found
    → (start ≤ length hay) × (start ≤ found) × (find (drop start hay) needle ≡ some (found - start))
unfolding find_from
find_from-cases hay needle start found h = elim (Option-cases (find (drop start hay) needle)) [
  | inl e ↦ absurd (ground arith)
  | inr (k, e) ↦ (ground arith, ground arith, ground arith)
]

find_from-NoMatch :
    (hay needle : Text) (start : ℕ)
    → find_from hay needle start ≡ none
    → NoMatch (drop start hay) needle
unfolding find_from
find_from-NoMatch hay needle start h = elim (Bool-cases (ltb (length hay) start)) [
  | inl beyond ↦ rw (drop_all start hay (ground arith)) tt
  | inr inside ↦ find-NoMatch (drop start hay) needle (ground arith)
]

starts_with-length : (s p : Text) → starts_with s p ≡ true → length p ≤ length s
unfolding starts_with
starts_with-length s [] h = omega arith
starts_with-length [] (d ∷ ds) h = absurd (cc)
starts_with-length (c ∷ cs) (d ∷ ds) h = ground (arith, starts_with-length cs ds)

-- What one round of the loop finds.
record IsFound (content needle : Text) (start found : ℕ) : Type 0 where
  behind : start ≤ found
  first : NoMatchBefore (found - start) (drop start content) needle
  there : starts_with (drop found content) needle ≡ true
  inside : found + length needle ≤ length content

find_from-IsFound :
    (content needle : Text) (start found : ℕ)
    → 1 ≤ length needle
    → find_from content needle start ≡ some found
    → IsFound content needle start found
find_from-IsFound content needle start found lo h =
    let (fits, behind, at) = find_from-cases content needle start found h in
    let begins = find-starts_with (drop start content) needle (found - start) at in
    let places = drop-drop (found - start) start content in
    let sums : start + (found - start) ≡ found = omega arith in
    let there : starts_with (drop found content) needle ≡ true =
      subst (λ n. starts_with (drop n content) needle ≡ true) sums
        (subst (λ t. starts_with t needle ≡ true) places begins) in
    record {
      behind = behind;
      first = find-NoMatchBefore (drop start content) needle (found - start) at;
      there = there;
      inside =
          omega (
            arith,
            starts_with-length (drop found content) needle there,
            length-drop found content,
          );
    }

AreMatches-cons :
    (content needle : Text) (start found : ℕ) (later : List ExactMatch)
    → 1 ≤ length needle
    → IsFound content needle start found
    → AreMatches content needle (found + length needle) later
    → AreMatches content needle start
        (exact_match (line_starts content) found (found + length needle) ∷ later)
unfolding exact_match
AreMatches-cons content needle start found later lo f rest =
    let stop = found + length needle in
    let last : max found (stop - 1) ≡ stop - 1 = omega arith in
    (
      f.behind,
      f.first,
      f.there,
      refl,
      f.inside,
      line_number_at_offset-line_of content found,
      line_number_at_offset-line_of content (max found (stop - 1)) ∙ ap (line_of content) last,
      rest,
    )

-- One round of the loop that ends well.
round-eq-ok :
    (fuel : ℕ) (content needle : Text) (starts : List ℕ) (start found count : ℕ)
    (ms : List ExactMatch)
    → find_from content needle start ≡ some found
    → exact_matches_from (suc fuel) content needle starts start count ≡ ok ms
    → (later : List ExactMatch) × (exact_matches_from fuel content needle starts
          (found + length needle)
          (count + 1)
        ≡ ok later)
      × (exact_match starts found (found + length needle) ∷ later ≡ ms)
unfolding exact_matches_from
round-eq-ok fuel content needle starts start found count ms e h =
    let rest = exact_matches_from fuel content needle starts (found + length needle) (count + 1) in
    let (_, _, k) =
      >>=-eq-ok (raise_if (ltb max_matches (count + 1)) Kind.validation)
        (λ _. rest >>= λ later. ok (exact_match starts found (found + length needle) ∷ later))
        {last = ms} (ground arith) in
    let (later, q, l) = >>=-eq-ok rest _ k in (later, q, ground arith)

exact_matches_from-AreMatches :
    (fuel : ℕ) (content needle : Text) (start count : ℕ) (ms : List ExactMatch)
    → 1 ≤ length needle
    → exact_matches_from fuel content needle (line_starts content) start count ≡ ok ms
    → AreMatches content needle start ms
exact_matches_from-AreMatches zero content needle start count ms lo h =
    absurd (unfold exact_matches_from in cc)
exact_matches_from-AreMatches (suc fuel) content needle start count ms lo h =
    elim (Option-cases (find_from content needle start)) [
      | inl e ↦
          subst (AreMatches content needle start)
            (let q : [] ≡ ms = unfold exact_matches_from in ground arith in q)
            (find_from-NoMatch content needle start e)
      | inr (found, e) ↦
          let (later, q, same) =
            round-eq-ok fuel content needle (line_starts content) start found count ms e h in
          subst (AreMatches content needle start) same (
            AreMatches-cons content needle start found later lo
              (find_from-IsFound content needle start found lo e)
              (exact_matches_from-AreMatches fuel content needle (found + length needle) (count + 1)
                later lo q))
    ]

-- The matches that `find_exact_matches` returns are the leftmost ones that do not overlap, all of
-- them, each with the lines on which it begins and ends.
pub find_exact_matches-AreMatches :
    (content needle : Text) (ms : List ExactMatch)
    → find_exact_matches content needle ≡ ok ms
    → AreMatches content needle 0 ms
unfolding find_exact_matches
find_exact_matches-AreMatches content [] ms h = absurd (cc)
find_exact_matches-AreMatches content (c ∷ needle) ms h =
    exact_matches_from-AreMatches (suc (length content)) content (c ∷ needle) 0 0 ms (omega arith) h

-- A round that fails: there are too many matches, or a later round fails.
round-eq-err :
    (fuel : ℕ) (content needle : Text) (starts : List ℕ) (start found count : ℕ) (e : Error)
    → find_from content needle start ≡ some found
    → exact_matches_from (suc fuel) content needle starts start count ≡ err e
    → (e ≡ record { kind = Kind.validation; edit_index = none })
      ⊎ (exact_matches_from fuel content needle starts (found + length needle) (count + 1) ≡ err e)
unfolding exact_matches_from
round-eq-err fuel content needle starts start found count e at h =
    later_fails (exact_matches_from fuel content needle starts (found + length needle) (count + 1))
      (ltb max_matches (count + 1)) (ground arith)
  where
    later_fails :
        (rest : Result (List ExactMatch)) (many : Bool)
        → (raise_if many Kind.validation >>= λ _.
            rest >>= λ later. ok (exact_match starts found (found + length needle) ∷ later))
          ≡ err e
        → (e ≡ record { kind = Kind.validation; edit_index = none }) ⊎ (rest ≡ err e)
    later_fails rest true k = inl (cc)
    later_fails (ok later) false k = absurd (cc)
    later_fails (err d) false k = inr (cc)

exact_matches_from-kind :
    (fuel : ℕ) (content needle : Text) (starts : List ℕ) (start count : ℕ) (e : Error)
    → 1 ≤ length needle
    → start ≤ length content
    → length content < fuel + start
    → exact_matches_from fuel content needle starts start count ≡ err e
    → (e ≡ record { kind = Kind.validation; edit_index = none })
exact_matches_from-kind zero content needle starts start count e lo le lt h = absurd (omega arith)
exact_matches_from-kind (suc fuel) content needle starts start count e lo le lt h =
    elim (Option-cases (find_from content needle start)) [
      | inl q ↦ absurd (unfold exact_matches_from in ground arith)
      | inr (found, q) ↦
          let f = find_from-IsFound content needle start found lo q in
          elim (round-eq-err fuel content needle starts start found count e q h) [
            | inl now ↦ now
            | inr later ↦
                exact_matches_from-kind fuel content needle starts (found + length needle)
                  (count + 1) e lo f.inside (let behind = f.behind in omega arith) later
          ]
    ]

-- `find_exact_matches` fails only with a validation error without an edit index, so its loop never
-- runs out of fuel.
pub find_exact_matches-kind :
    (content needle : Text) (e : Error)
    → find_exact_matches content needle ≡ err e
    → e ≡ record { kind = Kind.validation; edit_index = none }
unfolding find_exact_matches
find_exact_matches-kind content [] e h = cc
find_exact_matches-kind content (c ∷ needle) e h =
    exact_matches_from-kind (suc (length content)) content (c ∷ needle) (line_starts content) 0 0 e
      (omega arith) (omega arith) (omega arith) h
