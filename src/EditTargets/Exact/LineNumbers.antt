-- ===== src/EditTargets/Exact/LineNumbers.antt =====
-- `_line_number_at_offset`: the binary search counts the newlines in front of an offset.
use ferumind.Common.{
  ℕ, zero, suc, ◌+◌, ◌-◌, ◌/◌, ◌≤◌, ◌<◌, ◌≡◌, refl, ◌∙◌, inl, inr, List, [], ◌∷◌, arith, ltb, leb,
  ◌==◌, if◌then◌else◌, Bool-cases, if_elim, length, get_or, take,
}
use ferumind.Text.{Text}
use ferumind.Text.Lines.{newline, count_newlines}
use ferumind.EditTargets.Exact.{starts_behind, line_starts, search_line, line_number_at_offset}

-- The line of an offset, counted from 1.
abbrev pub line_of : Text → ℕ → ℕ
line_of content offset = suc (count_newlines (take offset content))

-- Increasing numbers of at least `from`.
abbrev Ascending : ℕ → List ℕ → Type 0
Ascending from [] = Unit
Ascending from (x ∷ xs) = (from ≤ x) × Ascending (suc x) xs

Ascending-weaken : (m n : ℕ) (xs : List ℕ) → m ≤ n → Ascending n xs → Ascending m xs
Ascending-weaken m n [] le h = tt
Ascending-weaken m n (x ∷ xs) le (a, h) = (omega arith, h)

-- How many numbers are at most `n`.
count_up_to : ℕ → List ℕ → ℕ
count_up_to n [] = 0
count_up_to n (x ∷ xs) = (if leb x n then 1 else 0) + count_up_to n xs

starts_behind-Ascending : (k : ℕ) (t : Text) → Ascending (suc k) (starts_behind k t)
unfolding starts_behind
starts_behind-Ascending k [] = tt
starts_behind-Ascending k (c ∷ cs) =
    if_elim (Ascending (suc k)) (c == newline) _ _
      (λ here. (omega arith, starts_behind-Ascending (suc k) cs))
      λ later.
        Ascending-weaken (suc k) (suc (suc k)) (starts_behind (suc k) cs) (omega arith)
          (starts_behind-Ascending (suc k) cs)

count_up_to_small : (n from : ℕ) (xs : List ℕ) → n < from → Ascending from xs → count_up_to n xs ≡ 0
unfolding count_up_to
count_up_to_small n from [] lt h = refl
count_up_to_small n from (x ∷ xs) lt (a, h) =
    ground (arith, count_up_to_small n (suc x) xs (omega arith) h)

-- The starts up to an offset are those behind the newlines in front of it.
count_up_to-starts_behind :
    (k o : ℕ) (t : Text) → count_up_to (k + o) (starts_behind k t) ≡ count_newlines (take o t)
unfolding starts_behind count_up_to count_newlines
count_up_to-starts_behind k zero t =
    count_up_to_small (k + 0) (suc k) (starts_behind k t) (omega arith)
      (starts_behind-Ascending k t)
count_up_to-starts_behind k (suc o) [] = refl
count_up_to-starts_behind k (suc o) (c ∷ cs) =
    let shift : k + suc o ≡ suc k + o = omega arith in
    let ih = count_up_to-starts_behind (suc k) o cs in rw shift (ground arith)

length-count_up_to : (n : ℕ) (xs : List ℕ) → count_up_to n xs ≤ length xs
unfolding count_up_to
length-count_up_to n [] = omega arith
length-count_up_to n (x ∷ xs) = ground (arith, length-count_up_to n xs)

-- In increasing numbers, those up to `n` come first.
get_or-count_up_to :
    (n from i : ℕ) (xs : List ℕ)
    → Ascending from xs
    → i < length xs
    → leb (get_or xs i 0) n ≡ ltb i (count_up_to n xs)
unfolding count_up_to
get_or-count_up_to n from i [] h lt = absurd (omega arith)
get_or-count_up_to n from zero (x ∷ xs) (a, h) lt = elim (Bool-cases (leb x n)) [
  | inl e ↦ ground arith
  | inr e ↦ ground (arith, count_up_to_small n (suc x) xs (ground arith) h)
]
get_or-count_up_to n from (suc i) (x ∷ xs) (a, h) lt =
    let ih = get_or-count_up_to n (suc x) i xs h (omega arith) in
    elim (Bool-cases (leb x n)) [
      | inl e ↦ ground arith
      | inr e ↦ ground (arith, count_up_to_small n (suc x) xs (ground arith) h)
    ]

search_line-eq :
    (fuel : ℕ) (starts : List ℕ) (n lo hi from : ℕ)
    → Ascending from starts
    → hi < length starts
    → lo < count_up_to n starts
    → count_up_to n starts ≤ hi + 1
    → hi - lo ≤ fuel
    → search_line fuel starts n lo hi ≡ count_up_to n starts
unfolding search_line
search_line-eq zero starts n lo hi from h inside above below enough = omega arith
search_line-eq (suc fuel) starts n lo hi from h inside above below enough =
    let mid = (lo + hi + 1) / 2 in
    elim (Bool-cases (ltb lo hi)) [
      | inr done ↦ ground arith
      | inl more ↦
          let at_mid = get_or-count_up_to n from mid starts h (ground arith) in
          elim (Bool-cases (leb (get_or starts mid 0) n)) [
            | inl e ↦
                let below_hi =
                  search_line-eq fuel starts n mid hi from h inside (ground arith) below
                    (ground arith) in
                ground arith
            | inr e ↦
                let above_lo =
                  search_line-eq fuel starts n lo (mid - 1) from h (ground arith) above
                    (ground arith) (ground arith) in
                ground arith
          ]
    ]

count_up_to-line_starts :
    (content : Text) (offset : ℕ)
    → count_up_to offset (0 ∷ starts_behind 0 content) ≡ line_of content offset
unfolding count_up_to
count_up_to-line_starts content offset =
    let shift : 0 + offset ≡ offset = omega arith in
    let counted = rw shift at (count_up_to-starts_behind 0 offset content) in
    ground (arith, counted)

-- The binary search over the line starts of a text gives, for every offset, one more than the
-- number of newlines in front of it.
pub line_number_at_offset-line_of :
    (content : Text) (offset : ℕ)
    → line_number_at_offset (line_starts content) offset ≡ line_of content offset
unfolding line_number_at_offset line_starts
line_number_at_offset-line_of content offset =
    let starts = 0 ∷ starts_behind 0 content in
    search_line-eq (length starts) starts offset 0 (length starts - 1) 0
      (omega arith, starts_behind-Ascending 0 content) (omega arith)
      (omega (arith, count_up_to-line_starts content offset))
      (omega (arith, length-count_up_to offset starts)) (omega arith)
    ∙ count_up_to-line_starts content offset
