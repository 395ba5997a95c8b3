-- ===== src/Text/Find.antt =====
-- `hay.find(needle, start)`.
use ferumind.Common.{
  ℕ, zero, suc, ◌+◌, ◌≡◌, true, Option, none, some, [], ◌∷◌, arith, ltb, if◌then◌else◌, length,
  drop, drop-nil,
}
use ferumind.Text.{Text}
use ferumind.Text.Chars.{starts_with, is_empty}

-- hay.find(needle), with `none` for -1
unfoldable pub find : Text → Text → Option ℕ
find [] needle = if is_empty needle then some 0 else none
find (c ∷ cs) needle =
    let later = find cs needle in
    if starts_with (c ∷ cs) needle
    then some 0
    else elim later [ none ↦ none | some k ↦ some (suc k) ]

-- hay.find(needle, start)
unfoldable pub find_from : Text → Text → ℕ → Option ℕ
unfolding find
find_from hay needle start =
    if ltb (length hay) start
    then none
    else elim (find (drop start hay) needle) [ none ↦ none | some k ↦ some (start + k) ]

-- Where a needle is found, the text has it.
pub find-starts_with :
    (hay needle : Text) (k : ℕ) → find hay needle ≡ some k → starts_with (drop k hay) needle ≡ true
unfolding find starts_with
find-starts_with [] [] k h = ground (arith, drop-nil {A = ℕ} k)
find-starts_with [] (d ∷ ds) k h = cc
find-starts_with (c ∷ cs) needle zero h = ground arith
find-starts_with (c ∷ cs) needle (suc k) h = find-starts_with cs needle k (ground arith)
