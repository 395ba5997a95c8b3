-- ===== src/DocumentMap/Headings.antt =====
-- core/document_map.py: code fences, heading lines, and the headings of the body.
use ferumind.Common.{
  ℕ, suc, ◌+◌, ◌≤◌, ◌<◌, ◌≡◌, refl, inl, inr, Bool, true, false, not, ◌&&◌, ◌||◌, Option, none,
  some, List, [], ◌∷◌, arith, leb, ◌==◌, if◌then◌else◌, Bool-cases, length, drop,
}
use ferumind.Text.{Text}
use ferumind.Text.Chars.{is_space, lstrip, strip, starts_with}
use ferumind.DocumentMap.{slice}

abbrev pub backticks : Text
backticks = b'`' ∷ b'`' ∷ b'`' ∷ []

abbrev pub tildes : Text
tildes = b'~' ∷ b'~' ∷ b'~' ∷ []

-- _FENCE_RE.match(line): the fence of group 1
unfoldable pub fence_of : Text → Option Text
unfolding lstrip starts_with
fence_of line =
    let inner = lstrip line in
    if starts_with inner backticks
    then some backticks
    else if starts_with inner tildes
    then some tildes
    else none

unfoldable pub is_fence : Text → Bool
unfolding fence_of
is_fence line = elim (fence_of line) [ none ↦ false | some f ↦ true ]

-- The `#` characters at the start of a line.
unfoldable pub count_hashes : Text → ℕ
count_hashes [] = 0
count_hashes (c ∷ cs) = if c == b'#' then suc (count_hashes cs) else 0

-- `\s+(.+)$` behind the hashes: group 2, stripped.
unfoldable pub heading_text : Text → Option Text
unfolding strip is_space
heading_text [] = none
heading_text (c ∷ []) = none
heading_text (c ∷ d ∷ cs) = if is_space c then some (strip (d ∷ cs)) else none

-- _HEADING_RE.match(line): the level, and the stripped text
unfoldable pub heading_of : Text → Option (ℕ × Text)
unfolding count_hashes heading_text
heading_of line =
    let level = count_hashes line in
    if leb 1 level && leb level 6
    then elim (heading_text (drop level line)) [ none ↦ none | some text ↦ some (level, text) ]
    else none

unfoldable pub is_heading : Text → Bool
unfolding heading_of
is_heading line = elim (heading_of line) [ none ↦ false | some h ↦ true ]

pub record Heading : Type 0 where
  pub line_number : ℕ
  pub level : ℕ
  pub text : Text

-- The heading of line `ln`, if there is one, in front of the later ones.
abbrev prepend_heading : ℕ → Option (ℕ × Text) → List Heading → List Heading
prepend_heading ln none later = later
prepend_heading ln (some (level, text)) later =
    record { line_number = ln; level = level; text = text } ∷ later

-- The loop of `_find_headings` from line `ln` on.
unfoldable pub headings_from : ℕ → Bool → List Text → List Heading
headings_from ln in_code [] = []
headings_from ln in_code (line ∷ rest) =
    let fenced = is_fence line in
    let later = headings_from (suc ln) (if fenced then not in_code else in_code) rest in
    if fenced || in_code then later else prepend_heading ln (heading_of line) later

-- _find_headings
unfoldable pub find_headings : List Text → ℕ → ℕ → List Heading
unfolding headings_from is_fence heading_of
find_headings lines body_start total_lines =
    headings_from body_start false (slice lines body_start total_lines)

-- The headings stand at increasing lines of a range, at levels from 1 to 6.
abbrev pub AreHeadings : ℕ → ℕ → List Heading → Type 0
AreHeadings from to [] = Unit
AreHeadings from to (h ∷ hs) =
    (from ≤ h.line_number)
    × (h.line_number < to)
    × (1 ≤ h.level)
    × (h.level ≤ 6)
    × AreHeadings (suc h.line_number) to hs

pub AreHeadings-weaken :
    (m n to : ℕ) (hs : List Heading) → m ≤ n → AreHeadings n to hs → AreHeadings m to hs
AreHeadings-weaken m n to [] le h = tt
AreHeadings-weaken m n to (x ∷ hs) le (a, b, c, d, e) = (omega arith, b, c, d, e)

heading_of_level :
    (line : Text) (level : ℕ) (text : Text)
    → heading_of line ≡ some (level, text)
    → (1 ≤ level) × (level ≤ 6)
unfolding heading_of
heading_of_level line level text h = ground arith

prepend_heading-AreHeadings :
    (ln to : ℕ) (found : Option (ℕ × Text)) (later : List Heading)
    → ((level : ℕ) (text : Text) → found ≡ some (level, text) → (1 ≤ level) × (level ≤ 6))
    → ln < to
    → AreHeadings (suc ln) to later
    → AreHeadings ln to (prepend_heading ln found later)
prepend_heading-AreHeadings ln to none later ok_level lt h =
    AreHeadings-weaken ln (suc ln) to later (omega arith) h
prepend_heading-AreHeadings ln to (some (level, text)) later ok_level lt h =
    let (lo, hi) = ok_level level text refl in (omega arith, lt, lo, hi, h)

-- Where the range of lines ends is a variable with an equation, since `ln + suc n` is stuck.
pub headings_from-AreHeadings :
    (ln : ℕ) (in_code : Bool) (lines : List Text) (to : ℕ)
    → ln + length lines ≡ to
    → AreHeadings ln to (headings_from ln in_code lines)
unfolding headings_from
headings_from-AreHeadings ln in_code [] to e = tt
headings_from-AreHeadings ln in_code (line ∷ rest) to e =
    let flag = if is_fence line then not in_code else in_code in
    let later = headings_from (suc ln) flag rest in
    let ih : AreHeadings (suc ln) to later =
      headings_from-AreHeadings (suc ln) flag rest to (omega arith) in
    elim (Bool-cases (is_fence line || in_code)) [
      | inl q ↦ rw q (AreHeadings-weaken ln (suc ln) to later (omega arith) ih)
      | inr q ↦ rw q (
          prepend_heading-AreHeadings ln to (heading_of line) later (heading_of_level line)
            (omega arith) ih)
    ]
