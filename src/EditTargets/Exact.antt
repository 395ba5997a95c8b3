-- ===== src/EditTargets/Exact.antt =====
-- core/edit_targets.py: `find_exact_matches`.
pub mod LineNumbers
pub mod Scan
use ferumind.Common.{
  ℕ, zero, suc, ◌+◌, ◌-◌, ◌/◌, max, true, false, none, some, List, [], ◌∷◌, ltb, leb, ◌==◌,
  if◌then◌else◌, Kind, Result, ok, ◌>>=◌, ◌>>◌, raise, raise_if, length, get_or,
}
use ferumind.Text.{Text}
use ferumind.Text.Chars.{is_empty}
use ferumind.Text.Lines.{newline}
use ferumind.Text.Find.{find_from}
use ferumind.EditTargets.{max_matches}

-- Offsets count characters from 0, lines from 1.
pub record ExactMatch : Type 0 where
  pub start_offset : ℕ
  pub end_offset : ℕ
  pub start_line : ℕ
  pub end_line : ℕ

-- The offsets behind the newlines of a text at an offset.
unfoldable pub starts_behind : ℕ → Text → List ℕ
starts_behind offset [] = []
starts_behind offset (c ∷ cs) =
    let rest = starts_behind (suc offset) cs in if c == newline then suc offset ∷ rest else rest

unfoldable pub line_starts : Text → List ℕ
line_starts content = 0 ∷ starts_behind 0 content

-- The binary search of `_line_number_at_offset`.
unfoldable pub search_line : ℕ → List ℕ → ℕ → ℕ → ℕ → ℕ
search_line zero starts offset lo hi = lo + 1
search_line (suc fuel) starts offset lo hi =
    let mid = (lo + hi + 1) / 2 in
    elim (ltb lo hi) [
      | false ↦ lo + 1
      | true ↦ elim (leb (get_or starts mid 0) offset) [
        | true ↦ search_line fuel starts offset mid hi
        | false ↦ search_line fuel starts offset lo (mid - 1)
      ]
    ]

unfoldable pub line_number_at_offset : List ℕ → ℕ → ℕ
line_number_at_offset starts offset =
    search_line (length starts) starts offset 0 (length starts - 1)

-- The match at an offset.
unfoldable pub exact_match : List ℕ → ℕ → ℕ → ExactMatch
exact_match starts found stop = record {
  start_offset = found;
  end_offset = stop;
  start_line = line_number_at_offset starts found;
  end_line = line_number_at_offset starts (max found (stop - 1));
}

-- The loop of `find_exact_matches` from an offset on, with the number of matches so far.
unfoldable pub exact_matches_from : ℕ → Text → Text → List ℕ → ℕ → ℕ → Result (List ExactMatch)
exact_matches_from zero content needle starts start count = raise Kind.out_of_fuel
exact_matches_from (suc fuel) content needle starts start count =
    elim (find_from content needle start) [
      | none ↦ ok []
      | some found ↦ do
        let stop = found + length needle
        raise_if (ltb max_matches (count + 1)) Kind.validation
        later ← exact_matches_from fuel content needle starts stop (count + 1)
        ok (exact_match starts found stop ∷ later)
    ]

unfoldable pub find_exact_matches : Text → Text → Result (List ExactMatch)
find_exact_matches content needle = do
  raise_if (is_empty needle) Kind.validation
  exact_matches_from (suc (length content)) content needle (line_starts content) 0 0
