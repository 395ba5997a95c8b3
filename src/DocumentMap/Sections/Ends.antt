-- ===== src/DocumentMap/Sections/Ends.antt =====
-- The end lines of `derive_sections`: the table of next lines against a search of the headings.
use ferumind.Common.{
  ℕ, zero, suc, ◌+◌, ◌-◌, ◌≤◌, ◌<◌, ◌≡◌, refl, sym, ap, ◌∙◌, inl, inr, Option, none, some, List, [],
  ◌∷◌, arith, leb, if◌then◌else◌, Bool-cases, Option-cases, length, set, take, drop, length-drop,
  take-nil,
}
use ferumind.DocumentMap.Headings.{Heading, AreHeadings}
use ferumind.DocumentMap.Sections.{least, no_lines, end_lines}

-- The line of the first heading at this level or above it.
abbrev pub next_line : ℕ → List Heading → Option ℕ
next_line level [] = none
next_line level (h ∷ hs) = if leb h.level level then some h.line_number else next_line level hs

-- The last line in front of a line, or of the document.
abbrev pub line_before : ℕ → Option ℕ → ℕ
line_before total_lines none = total_lines
line_before total_lines (some line) = line - 1

-- A section ends before the next heading of its level or above, or with the document.
abbrev pub section_end : ℕ → ℕ → List Heading → ℕ
section_end total_lines level hs = line_before total_lines (next_line level hs)

abbrev pub section_ends : ℕ → List Heading → List ℕ
section_ends total_lines [] = []
section_ends total_lines (h ∷ hs) = section_end total_lines h.level hs ∷ section_ends total_lines hs

-- Every line of the table lies behind `n`.
abbrev AllBehind : ℕ → List (Option ℕ) → Type 0
AllBehind n [] = Unit
AllBehind n (none ∷ xs) = AllBehind n xs
AllBehind n (some m ∷ xs) = (n < m) × AllBehind n xs

AllBehind-weaken : (m n : ℕ) (xs : List (Option ℕ)) → m ≤ n → AllBehind n xs → AllBehind m xs
AllBehind-weaken m n [] le h = tt
AllBehind-weaken m n (none ∷ xs) le h = AllBehind-weaken m n xs le h
AllBehind-weaken m n (some x ∷ xs) le (a, h) = (omega arith, AllBehind-weaken m n xs le h)

AllBehind-set :
    (m n i : ℕ) (xs : List (Option ℕ)) → m < n → AllBehind m xs → AllBehind m (set xs i (some n))
AllBehind-set m n i [] lt h = tt
AllBehind-set m n zero (none ∷ xs) lt h = (lt, h)
AllBehind-set m n zero (some x ∷ xs) lt (a, h) = (lt, h)
AllBehind-set m n (suc i) (none ∷ xs) lt h = AllBehind-set m n i xs lt h
AllBehind-set m n (suc i) (some x ∷ xs) lt (a, h) = (a, AllBehind-set m n i xs lt h)

least-gt : (n : ℕ) (xs : List (Option ℕ)) → AllBehind n xs → (m : ℕ) → least xs ≡ some m → n < m
unfolding least
least-gt n [] h m e = cc
least-gt n (none ∷ xs) h m e = least-gt n xs h m e
least-gt n (some x ∷ xs) (a, h) m e = elim (Option-cases (least xs)) [
  | inl q ↦ ground arith
  | inr (k, q) ↦ ground (arith, least-gt n xs h k q)
]

AllBehind-take : (n k : ℕ) (xs : List (Option ℕ)) → AllBehind n xs → AllBehind n (take k xs)
AllBehind-take n zero xs h = tt
AllBehind-take n (suc k) [] h = tt
AllBehind-take n (suc k) (none ∷ xs) h = AllBehind-take n k xs h
AllBehind-take n (suc k) (some x ∷ xs) (a, h) = (a, AllBehind-take n k xs h)

least-cons_small : (n : ℕ) (xs : List (Option ℕ)) → AllBehind n xs → least (some n ∷ xs) ≡ some n
unfolding least
least-cons_small n xs h = elim (Option-cases (least xs)) [
  | inl q ↦ rw q
  | inr (k, q) ↦ ground (arith, least-gt n xs h k q)
]

least-none : (xs : List (Option ℕ)) → least (none ∷ xs) ≡ least xs
unfolding least
least-none xs = refl

least-some_smaller :
    (n x : ℕ) (xs : List (Option ℕ)) → n < x → least xs ≡ some n → least (some x ∷ xs) ≡ some n
unfolding least
least-some_smaller n x xs lt h = rw h (ground arith)

-- A line in front of all others is the least once it is in the first `k` places.
least-take-set :
    (n i k : ℕ) (xs : List (Option ℕ))
    → i < k
    → k ≤ length xs
    → AllBehind n xs
    → least (take k (set xs i (some n))) ≡ some n
least-take-set n i zero xs lt le h = absurd (omega arith)
least-take-set n i (suc k) [] lt le h = absurd (omega arith)
least-take-set n zero (suc k) (none ∷ xs) lt le h =
    least-cons_small n (take k xs) (AllBehind-take n k xs h)
least-take-set n zero (suc k) (some x ∷ xs) lt le (a, h) =
    least-cons_small n (take k xs) (AllBehind-take n k xs h)
least-take-set n (suc i) (suc k) (none ∷ xs) lt le h =
    least-none (take k (set xs i (some n))) ∙ least-take-set n i k xs (omega arith) (omega arith) h
least-take-set n (suc i) (suc k) (some x ∷ xs) lt le (a, h) =
    least-some_smaller n x (take k (set xs i (some n))) a
      (least-take-set n i k xs (omega arith) (omega arith) h)

-- A place behind the first `k` does not matter.
take-set_outside {ℓ} :
    {A : Type ℓ} (i k : ℕ) (xs : List A) (v : A) → k ≤ i → take k (set xs i v) ≡ take k xs
take-set_outside i zero xs v le = refl
take-set_outside i (suc k) [] v le = refl
take-set_outside zero (suc k) (x ∷ xs) v le = absurd (omega arith)
take-set_outside (suc i) (suc k) (x ∷ xs) v le =
    ap (λ t. x ∷ t) (take-set_outside i k xs v (omega arith))

length-set {ℓ} : {A : Type ℓ} (i : ℕ) (xs : List A) (v : A) → length (set xs i v) ≡ length xs
length-set i [] v = refl
length-set zero (x ∷ xs) v = refl
length-set (suc i) (x ∷ xs) v = ap suc (length-set i xs v)

-- What the loop keeps: the table has seven places, its lines lie behind the headings to come, and
-- the least line of levels 1 to L is that of the next heading at such a level.
record IsTable (from : ℕ) (hs : List Heading) (table : List (Option ℕ)) : Type 0 where
  size : length table ≡ 7
  behind : (n : ℕ) → n < from → AllBehind n table
  nearest : (level : ℕ) → level ≤ 6 → least (take level (drop 1 table)) ≡ next_line level hs

drop-take {ℓ} : {A : Type ℓ} (k : ℕ) (xs : List A) → drop 1 (take (k + 1) xs) ≡ take k (drop 1 xs)
drop-take {A} k [] = let e : k + 1 ≡ suc k = omega arith in rw e (sym (take-nil {A = A} k))
drop-take k (x ∷ xs) = let e : k + 1 ≡ suc k = omega arith in rw e

abbrev AllNone : List (Option ℕ) → Type 0
AllNone [] = Unit
AllNone (none ∷ xs) = AllNone xs
AllNone (some n ∷ xs) = ⊥

least-take_of_AllNone : (k : ℕ) (xs : List (Option ℕ)) → AllNone xs → least (take k xs) ≡ none
least-take_of_AllNone zero xs h = unfold least in refl
least-take_of_AllNone (suc k) [] h = unfold least in refl
least-take_of_AllNone (suc k) (none ∷ xs) h = least-none (take k xs) ∙ least-take_of_AllNone k xs h
least-take_of_AllNone (suc k) (some n ∷ xs) h = absurd h

no_lines-IsTable : (from : ℕ) → IsTable from [] no_lines
no_lines-IsTable from = record {
  size = refl;
  behind = λ n lt. tt;
  nearest = λ level le. least-take_of_AllNone level (drop 1 no_lines) tt;
}

drop-set {ℓ} :
    {A : Type ℓ} (i : ℕ) (xs : List A) (v : A) → drop 1 (set xs (suc i) v) ≡ set (drop 1 xs) i v
drop-set i [] v = refl
drop-set i (x ∷ xs) v = refl

AllBehind-drop : (n : ℕ) (xs : List (Option ℕ)) → AllBehind n xs → AllBehind n (drop 1 xs)
AllBehind-drop n [] h = h
AllBehind-drop n (none ∷ xs) h = h
AllBehind-drop n (some m ∷ xs) (a, h) = h

-- One write to the table: the new line is nearest for its level and those below it.
least-set :
    (n level at : ℕ) (table : List (Option ℕ))
    → length table ≡ 7
    → 1 ≤ at
    → level ≤ 6
    → AllBehind n table
    → least (take level (drop 1 (set table at (some n))))
      ≡ (if leb at level then some n else least (take level (drop 1 table)))
least-set n level zero table size lo hi h = absurd (omega arith)
least-set n level (suc i) table size lo hi h =
    rw (drop-set i table (some n)) (elim (Bool-cases (leb (suc i) level)) [
      | inl inside ↦ rw inside (
          least-take-set n i level (drop 1 table) (ground arith)
            (omega (arith, length-drop 1 table)) (AllBehind-drop n table h))
      | inr outside ↦
          rw outside (ap least (take-set_outside i level (drop 1 table) (some n) (ground arith)))
    ])

step-IsTable :
    (from : ℕ) (h : Heading) (hs : List Heading) (table : List (Option ℕ))
    → from ≤ h.line_number
    → 1 ≤ h.level
    → IsTable (suc h.line_number) hs table
    → IsTable from (h ∷ hs) (set table h.level (some h.line_number))
step-IsTable from h hs table le lo t = record {
  size = length-set h.level table (some h.line_number) ∙ t.size;
  behind =
      λ n lt. AllBehind-set n h.line_number h.level table (omega arith) (t.behind n (omega arith));
  nearest = λ level hi.
      least-set h.line_number level h.level table t.size lo hi
        (t.behind h.line_number (omega arith))
      ∙ ap (λ r. if leb h.level level then some h.line_number else r) (t.nearest level hi);
}

end_lines-IsTable :
    (total_lines from to : ℕ) (hs : List Heading)
    → AreHeadings from to hs
    → IsTable from hs (end_lines total_lines hs).1
end_lines-IsTable total_lines from to [] h = unfold end_lines in no_lines-IsTable from
end_lines-IsTable total_lines from to (h ∷ hs) (le, lt, lo, hi, rest) =
    stepped (end_lines-IsTable total_lines (suc h.line_number) to hs rest)
  where
    stepped :
        IsTable (suc h.line_number) hs (end_lines total_lines hs).1
        → IsTable from (h ∷ hs) (end_lines total_lines (h ∷ hs)).1
    stepped t = unfold end_lines in step-IsTable from h hs (end_lines total_lines hs).1 le lo t

end_lines-cons :
    (total_lines : ℕ) (h : Heading) (hs : List Heading)
    → least (take h.level (drop 1 (end_lines total_lines hs).1)) ≡ next_line h.level hs
    → (end_lines total_lines hs).0 ≡ section_ends total_lines hs
    → (end_lines total_lines (h ∷ hs)).0 ≡ section_ends total_lines (h ∷ hs)
unfolding end_lines
end_lines-cons total_lines h hs near ih =
    ground (arith, drop-take h.level (end_lines total_lines hs).1)

-- For headings at increasing lines with levels from 1 to 6, the table of the next line at each
-- level gives each heading the end that a search of the later headings for one of its level or
-- higher gives.
pub end_lines-section_ends :
    (total_lines from to : ℕ) (hs : List Heading)
    → AreHeadings from to hs
    → (end_lines total_lines hs).0 ≡ section_ends total_lines hs
end_lines-section_ends total_lines from to [] h = unfold end_lines in refl
end_lines-section_ends total_lines from to (h ∷ hs) (le, lt, lo, hi, rest) =
    end_lines-cons total_lines h hs
      ((end_lines-IsTable total_lines (suc h.line_number) to hs rest).nearest h.level hi)
      (end_lines-section_ends total_lines (suc h.line_number) to hs rest)
