-- ===== src/EditTargets/Ranges.antt =====
-- What `resolve_range` accepts and returns.
use ferumind.Common.{
  ℕ, ◌+◌, ◌-◌, ◌≤◌, ◌≡◌, refl, sym, ap, ◌∙◌, subst, ◌↔◌, false, Option, arith, ℤ, pos, negsuc, ok,
  >>=-eq-ok, length,
}
use ferumind.Text.{Text}
use ferumind.Text.Lines.{split_lines}
use ferumind.Runtime.{Runtime}
use ferumind.DocumentMap.{LineRange, hash_line_range, frontmatter_line_range}
use ferumind.DocumentMap.Body.{frontmatter_line_range-IsFrontmatter}
use ferumind.EditTargets.{resolve_range, in_frontmatter, assert_range_not_in_frontmatter}

-- The range that `resolve_range` returns for its arguments.
pub record IsRange (rt : Runtime) (content : Text) (start_line end_line : ℤ) (max_lines : ℕ)
    (found : LineRange × Text) : Type 0 where
  pub starts : start_line ≡ pos found.0.start_line
  pub stops : end_line ≡ pos found.0.end_line
  pub first : 1 ≤ found.0.start_line
  pub ordered : found.0.start_line ≤ found.0.end_line
  pub inside : found.0.end_line ≤ length (split_lines content)
  pub bounded : found.0.end_line + 1 - found.0.start_line ≤ max_lines
  pub hashed :
      found.1 ≡ hash_line_range rt (split_lines content) found.0.start_line found.0.end_line
  pub fm : Option LineRange × ℕ
  pub origin : frontmatter_line_range content ≡ ok fm
  pub behind : fm.1 ≤ found.0.start_line

-- A line that is not in the frontmatter is a line of the body.
pub unprotected_line :
    (content : Text) (line : ℕ) {fm : Option LineRange × ℕ}
    → frontmatter_line_range content ≡ ok fm
    → in_frontmatter fm.0 line ≡ false
    → 1 ≤ line
    → fm.1 ≤ line
unprotected_line content line {fm} e h lo =
    let body = frontmatter_line_range-IsFrontmatter content {range = fm.0} {body_start = fm.1} e in
    let first = body.first in let extent = body.extent in ground arith

-- The lines that are accepted are those of the body.
assert_range_behind :
    (content : Text) (line : ℕ)
    → assert_range_not_in_frontmatter content line ≡ ok tt
    → 1 ≤ line
    → (fm : Option LineRange × ℕ) × (frontmatter_line_range content ≡ ok fm) × (fm.1 ≤ line)
unfolding assert_range_not_in_frontmatter
assert_range_behind content line h lo =
    let (fm, e, k) = >>=-eq-ok (frontmatter_line_range content) _ h in
    let free : in_frontmatter fm.0 line ≡ false = ground arith in
    (fm, e, unprotected_line content line e free lo)

assert_range_accepts :
    (content : Text) (line : ℕ) {fm : Option LineRange × ℕ}
    → frontmatter_line_range content ≡ ok fm
    → fm.1 ≤ line
    → assert_range_not_in_frontmatter content line ≡ ok tt
unfolding assert_range_not_in_frontmatter
assert_range_accepts content line {fm} e h =
    let body = frontmatter_line_range-IsFrontmatter content {range = fm.0} {body_start = fm.1} e in
    let first = body.first in
    let extent = body.extent in
    let free : in_frontmatter fm.0 line ≡ false = ground arith in rw e (ground arith)

-- The checks of a range of natural numbers.
resolve_range-checks :
    (rt : Runtime) (content : Text) (s e max_lines : ℕ) {found : LineRange × Text}
    → resolve_range rt content (pos s) (pos e) max_lines ≡ ok found
    → (1 ≤ s)
      × (s ≤ e)
      × (e ≤ length (split_lines content))
      × (e + 1 - s ≤ max_lines)
      × (assert_range_not_in_frontmatter content s ≡ ok tt)
      × (found
          ≡ (record { start_line = s; end_line = e }, hash_line_range rt (split_lines content) s e))
unfolding resolve_range
resolve_range-checks rt content s e max_lines h = ground arith

-- A range that is returned is the one asked for.
pub resolve_range-IsRange :
    (rt : Runtime) (content : Text) (start_line end_line : ℤ) (max_lines : ℕ)
    {found : LineRange × Text}
    → resolve_range rt content start_line end_line max_lines ≡ ok found
    → IsRange rt content start_line end_line max_lines found
resolve_range-IsRange rt content (pos s) (pos e) max_lines {found} h =
    let (lo, ordered, inside, bounded, free, same) =
      resolve_range-checks rt content s e max_lines h in
    let (fm, origin, behind) = assert_range_behind content s free lo in
    subst (IsRange rt content (pos s) (pos e) max_lines) (sym same) (record {
      starts = refl;
      stops = refl;
      first = lo;
      ordered = ordered;
      inside = inside;
      bounded = bounded;
      hashed = refl;
      fm = fm;
      origin = origin;
      behind = behind;
    })
resolve_range-IsRange rt content (pos s) (negsuc e) max_lines h =
    absurd (unfold resolve_range in ground arith)
resolve_range-IsRange rt content (negsuc s) e max_lines h =
    absurd (unfold resolve_range in ground arith)

resolve_range_accepts :
    (rt : Runtime) (content : Text) (s e max_lines : ℕ)
    → 1 ≤ s
    → s ≤ e
    → e ≤ length (split_lines content)
    → e + 1 - s ≤ max_lines
    → assert_range_not_in_frontmatter content s ≡ ok tt
    → resolve_range rt content (pos s) (pos e) max_lines
      ≡ ok (record { start_line = s; end_line = e }, hash_line_range rt (split_lines content) s e)
unfolding resolve_range
resolve_range_accepts rt content s e max_lines a b c d p = ground arith

IsRange-resolve_range :
    (rt : Runtime) (content : Text) (start_line end_line : ℤ) (max_lines : ℕ)
    {found : LineRange × Text}
    → IsRange rt content start_line end_line max_lines found
    → resolve_range rt content start_line end_line max_lines ≡ ok found
IsRange-resolve_range rt content start_line end_line max_lines {found} r =
    let s = found.0.start_line in
    let e = found.0.end_line in
    let accepted =
      resolve_range_accepts rt content s e max_lines r.first r.ordered r.inside r.bounded
        (assert_range_accepts content s r.origin r.behind) in
    rw (r.starts, r.stops) (accepted ∙ ap (λ t. ok (found.0, t)) (sym r.hashed))

-- A range and a hash are returned exactly where the range is the one asked for, it begins at line
-- 1 or later and not in front of the first line of the body, it is not empty, it ends inside the
-- document and has no more than the allowed lines, and the hash is that of its lines.
pub resolve_range-ok_iff :
    (rt : Runtime) (content : Text) (start_line end_line : ℤ) (max_lines : ℕ)
    (found : LineRange × Text)
    → (resolve_range rt content start_line end_line max_lines ≡ ok found)
      ↔ IsRange rt content start_line end_line max_lines found
resolve_range-ok_iff rt content start_line end_line max_lines found = (
  resolve_range-IsRange rt content start_line end_line max_lines,
  IsRange-resolve_range rt content start_line end_line max_lines,
)
