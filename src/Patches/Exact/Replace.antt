-- ===== src/Patches/Exact/Replace.antt =====
-- Exact replacement from right to left against a replacement from left to right.
use ferumind.Common.{
  ℕ, zero, suc, ◌+◌, ◌-◌, ◌≤◌, ◌<◌, ◌≡◌, refl, sym, ap, ap₂, ◌∙◌, ◌≡⟨◌⟩◌, ◌∎, true, false, List, [],
  ◌∷◌, ◌++◌, append-nil, append_assoc, arith, leb, if_elim, length, take, drop, take-append-drop,
  length-take, take-nil, take_all, drop_all, drop_of_append, drop-drop,
}
use ferumind.Text.{Text}
use ferumind.Text.Chars.{starts_with}
use ferumind.EditTargets.Exact.{ExactMatch}
use ferumind.EditTargets.Exact.Scan.{NoMatchBefore, AreMatches}
use ferumind.Patches.Search.{splice}
use ferumind.Patches.Exact.{insert_exact, sort_exact, replace_exact}

-- Spans that are not empty, one behind another, from an offset to the end of a text.
abbrev pub AreOrdered : Text → ℕ → List ExactMatch → Type 0
AreOrdered content start [] = Unit
AreOrdered content start (m ∷ ms) =
    (start ≤ m.start_offset)
    × (m.start_offset < m.end_offset)
    × (m.end_offset ≤ length content)
    × AreOrdered content m.end_offset ms

-- The text from an offset on, with each span replaced and all between them kept.
abbrev pub pieces : Text → Text → ℕ → List ExactMatch → Text
pieces new_string content start [] = drop start content
pieces new_string content start (m ∷ ms) =
    drop start (take m.start_offset content)
    ++ (new_string ++ pieces new_string content m.end_offset ms)

pub AreOrdered-weaken :
    (content : Text) (i j : ℕ) (ms : List ExactMatch)
    → i ≤ j
    → AreOrdered content j ms
    → AreOrdered content i ms
AreOrdered-weaken content i j [] le h = tt
AreOrdered-weaken content i j (m ∷ ms) le (a, b, c, d) = (omega arith, b, c, d)

-- Every span begins behind an offset.
abbrev AllBehind : ℕ → List ExactMatch → Type 0
AllBehind n [] = Unit
AllBehind n (m ∷ ms) = (n < m.start_offset) × AllBehind n ms

insert_exact-AllBehind :
    (n : ℕ) (m : ExactMatch) (ms : List ExactMatch)
    → n < m.start_offset
    → AllBehind n ms
    → AllBehind n (insert_exact m ms)
unfolding insert_exact
insert_exact-AllBehind n m [] lt h = (lt, tt)
insert_exact-AllBehind n m (k ∷ ks) lt (a, h) =
    if_elim (AllBehind n) (leb k.start_offset m.start_offset) _ _ (λ here. (lt, (a, h)))
      λ later. (a, insert_exact-AllBehind n m ks lt h)

sort_exact-AllBehind :
    (content : Text) (n start : ℕ) (ms : List ExactMatch)
    → n < start
    → AreOrdered content start ms
    → AllBehind n (sort_exact ms)
unfolding sort_exact
sort_exact-AllBehind content n start [] lt h = tt
sort_exact-AllBehind content n start (m ∷ ms) lt (a, b, c, d) =
    insert_exact-AllBehind n m (sort_exact ms) (omega arith)
      (sort_exact-AllBehind content n m.end_offset ms (omega arith) d)

-- The first span is the last in the sorted list.
insert_exact_last :
    (m : ExactMatch) (ms : List ExactMatch)
    → AllBehind m.start_offset ms
    → insert_exact m ms ≡ ms ++ m ∷ []
unfolding insert_exact
insert_exact_last m [] h = refl
insert_exact_last m (k ∷ ks) (a, h) = ground (arith, insert_exact_last m ks h)

replace_exact-append :
    (new_string : Text) (xs : List ExactMatch) (m : ExactMatch) (text : Text)
    → replace_exact new_string (xs ++ m ∷ []) text
      ≡ splice (replace_exact new_string xs text) m.start_offset m.end_offset new_string
unfolding replace_exact
replace_exact-append new_string [] m text = refl
replace_exact-append new_string (x ∷ xs) m text =
    replace_exact-append new_string xs m (splice text x.start_offset x.end_offset new_string)

take-take-append {ℓ} :
    {A : Type ℓ} (i j : ℕ) (xs ys : List A)
    → i ≤ j
    → j ≤ length xs
    → take i (take j xs ++ ys) ≡ take i xs
take-take-append zero j xs ys le hi = refl
take-take-append (suc i) zero xs ys le hi = absurd (omega arith)
take-take-append (suc i) (suc j) [] ys le hi = absurd (omega arith)
take-take-append (suc i) (suc j) (x ∷ xs) ys le hi =
    ap (λ t. x ∷ t) (take-take-append i j xs ys (omega arith) (omega arith))

take-append-slice {ℓ} :
    {A : Type ℓ} (i j : ℕ) (xs : List A) → i ≤ j → take j xs ≡ take i xs ++ drop i (take j xs)
take-append-slice zero j xs le = refl
take-append-slice (suc i) zero xs le = absurd (omega arith)
take-append-slice (suc i) (suc j) [] le = refl
take-append-slice (suc i) (suc j) (x ∷ xs) le =
    ap (λ t. x ∷ t) (take-append-slice i j xs (omega arith))

sort_exact-cons :
    (m : ExactMatch) (ms : List ExactMatch)
    → AllBehind m.start_offset (sort_exact ms)
    → sort_exact (m ∷ ms) ≡ sort_exact ms ++ m ∷ []
unfolding sort_exact
sort_exact-cons m ms behind = insert_exact_last m (sort_exact ms) behind

-- The replacements from the last span to the first keep every text between the spans.
pub replace_exact-sort_exact :
    (new_string content : Text) (start : ℕ) (ms : List ExactMatch)
    → start ≤ length content
    → AreOrdered content start ms
    → replace_exact new_string (sort_exact ms) content
      ≡ take start content ++ pieces new_string content start ms
replace_exact-sort_exact new_string content start [] le h =
    unfold replace_exact sort_exact in sym (take-append-drop start content)
replace_exact-sort_exact new_string content start (m ∷ ms) le (a, b, c, d) =
    let ih = replace_exact-sort_exact new_string content m.end_offset ms c d in
    let behind = sort_exact-AllBehind content m.start_offset m.end_offset ms b d in
    let rest = pieces new_string content m.end_offset ms in
    let kept : length (take m.end_offset content) ≡ m.end_offset =
      omega (arith, length-take m.end_offset content) in
    replace_exact new_string (sort_exact (m ∷ ms)) content
    ≡⟨ ap (λ s. replace_exact new_string s content) (sort_exact-cons m ms behind) ⟩
      replace_exact new_string (sort_exact ms ++ m ∷ []) content
    ≡⟨ replace_exact-append new_string (sort_exact ms) m content ⟩
      splice (replace_exact new_string (sort_exact ms) content) m.start_offset m.end_offset
        new_string
    ≡⟨ ap (λ t. splice t m.start_offset m.end_offset new_string) ih ⟩
      splice (take m.end_offset content ++ rest) m.start_offset m.end_offset new_string
    ≡⟨ ap₂ (λ u v. u ++ (new_string ++ v))
        (take-take-append m.start_offset m.end_offset content rest (omega arith) c)
        (drop_of_append (take m.end_offset content) rest (sym kept)) ⟩
      take m.start_offset content ++ (new_string ++ rest)
    ≡⟨ ap (λ t. t ++ (new_string ++ rest)) (take-append-slice start m.start_offset content a)
      ∙ append_assoc (take start content) _ _ ⟩
      take start content ++ pieces new_string content start (m ∷ ms) ∎

-- content.replace(old, new), from left to right: `skip` characters are still part of a match.
unfoldable pub replace_all : Text → Text → ℕ → Text → Text
replace_all old new skip [] = []
replace_all old new (suc skip) (c ∷ cs) = replace_all old new skip cs
replace_all old new zero (c ∷ cs) = elim (starts_with (c ∷ cs) old) [
  | true ↦ new ++ replace_all old new (length old - 1) cs
  | false ↦ c ∷ replace_all old new 0 cs
]

replace_all-skip :
    (old new : Text) (k : ℕ) (t : Text) → replace_all old new k t ≡ replace_all old new 0 (drop k t)
replace_all-skip old new zero t = refl
replace_all-skip old new (suc k) [] = unfold replace_all in refl
replace_all-skip old new (suc k) (c ∷ cs) = stepped old new k c cs ∙ replace_all-skip old new k cs
  where
    stepped :
        (old new : Text) (k c : ℕ) (cs : Text)
        → replace_all old new (suc k) (c ∷ cs) ≡ replace_all old new k cs
    stepped old new k c cs = unfold replace_all in refl

replace_all-NoMatchBefore :
    (old new : Text) (k : ℕ) (t : Text)
    → NoMatchBefore k t old
    → replace_all old new 0 t ≡ take k t ++ replace_all old new 0 (drop k t)
unfolding replace_all
replace_all-NoMatchBefore old new zero t h = refl
replace_all-NoMatchBefore old new (suc k) [] h = refl
replace_all-NoMatchBefore old new (suc k) (c ∷ cs) (a, h) =
    ground (arith, replace_all-NoMatchBefore old new k cs h)

replace_all-starts_with :
    (old new t : Text)
    → 1 ≤ length old
    → starts_with t old ≡ true
    → replace_all old new 0 t ≡ new ++ replace_all old new 0 (drop (length old) t)
unfolding replace_all
replace_all-starts_with [] new t lo h = absurd (omega arith)
replace_all-starts_with (d ∷ old) new [] lo h = absurd (unfold starts_with in cc)
replace_all-starts_with (d ∷ old) new (c ∷ cs) lo h =
    let one_less : length (d ∷ old) - 1 ≡ length old = omega arith in
    ground (arith, replace_all-skip (d ∷ old) new (length old) cs)

drop-take {ℓ} :
    {A : Type ℓ} (i j : ℕ) (xs : List A) → i ≤ j → drop i (take j xs) ≡ take (j - i) (drop i xs)
drop-take zero j xs le = ap (λ k. take k xs) (let e : j ≡ j - 0 = omega arith in e)
drop-take (suc i) zero xs le = absurd (omega arith)
drop-take (suc i) (suc j) [] le = sym (take-nil (suc j - suc i))
drop-take (suc i) (suc j) (x ∷ xs) le =
    drop-take i j xs (omega arith)
    ∙ ap (λ k. take k (drop i xs)) (let e : j - i ≡ suc j - suc i = omega arith in e)

-- Where the matches are those of the search, the pieces are the replacement from left to right.
pub AreMatches-replace_all :
    (content old new : Text) (start : ℕ) (ms : List ExactMatch)
    → 1 ≤ length old
    → AreMatches content old start ms
    → pieces new content start ms ≡ replace_all old new 0 (drop start content)
AreMatches-replace_all content old new start [] lo h =
    let t = drop start content in
    let whole = replace_all-NoMatchBefore old new (length t) t h in
    let none_left : replace_all old new 0 (drop (length t) t) ≡ [] =
      ap (replace_all old new 0) (drop_all (length t) t (omega arith))
      ∙ (unfold replace_all in refl) in
    sym (whole ∙ ap₂ (λ u v. u ++ v) (take_all (length t) t (omega arith)) none_left ∙ append-nil t)
AreMatches-replace_all content old new start (m ∷ ms) lo (a, b, c, d, e, f, g, rest) =
    let gap = m.start_offset - start in
    let at_match : drop gap (drop start content) ≡ drop m.start_offset content =
      drop-drop gap start content
      ∙ ap (λ k. drop k content) (let q : start + gap ≡ m.start_offset = omega arith in q) in
    let behind : drop (length old) (drop m.start_offset content) ≡ drop m.end_offset content =
      drop-drop (length old) m.start_offset content ∙ ap (λ k. drop k content) (sym d) in
    let there = replace_all-starts_with old new (drop m.start_offset content) lo c in
    let ih = AreMatches-replace_all content old new m.end_offset ms lo rest in
    let spec = replace_all old new 0 in
    let tail : spec (drop gap (drop start content)) ≡ new ++ pieces new content m.end_offset ms =
      ap spec at_match ∙ there ∙ ap (λ t. new ++ spec t) behind ∙ ap (λ t. new ++ t) (sym ih) in
    sym (
      replace_all-NoMatchBefore old new gap (drop start content) b
      ∙ ap₂ (λ u v. u ++ v) (sym (drop-take start m.start_offset content a)) tail)
