-- ===== src/EditTargets/Fences.antt =====
-- core/edit_targets.py: `code_fence_line_set`.
use ferumind.Common.{
  ℕ, suc, Bool, true, false, not, ◌||◌, none, some, List, [], ◌∷◌, ◌==◌, if◌then◌else◌,
}
use ferumind.Text.{Text}
use ferumind.Text.Chars.{strip, starts_with}
use ferumind.DocumentMap.Headings.{backticks, fence_of}

pub record FenceState : Type 0 where
  pub in_code : Bool
  pub fence : Text

abbrev pub no_fence : FenceState
no_fence = record { in_code = false; fence = backticks }

-- One round of the loop: whether the line is inside, and the state behind it.
unfoldable pub fence_step : FenceState → Text → Bool × FenceState
unfolding fence_of strip starts_with
fence_step st line = elim st.in_code [
  | true ↦ (true, record st { in_code = not (starts_with (strip line) st.fence) })
  | false ↦ elim (fence_of line) [
    | none ↦ (false, st)
    | some f ↦ (true, record { in_code = true; fence = f })
  ]
]

-- The numbers of the lines inside fenced code, from line `ln` on.
unfoldable pub fence_lines_from : ℕ → FenceState → List Text → List ℕ
unfolding fence_step
fence_lines_from ln st [] = []
fence_lines_from ln st (line ∷ rest) =
    let later = fence_lines_from (suc ln) (fence_step st line).1 rest in
    if (fence_step st line).0 then ln ∷ later else later

unfoldable pub code_fence_line_set : List Text → List ℕ
unfolding fence_lines_from
code_fence_line_set lines = fence_lines_from 1 no_fence lines

-- n in inside
unfoldable pub has_line : List ℕ → ℕ → Bool
has_line [] n = false
has_line (m ∷ ms) n = (m == n) || has_line ms n
