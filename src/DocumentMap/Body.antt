-- ===== src/DocumentMap/Body.antt =====
-- Where `frontmatter_line_range` of core/document_map.py puts the frontmatter and the body.
use ferumind.Common.{
  ℕ, suc, ◌+◌, ◌-◌, ◌≤◌, ◌≡◌, refl, sym, ap, ◌∙◌, subst, ◌≢◌, ◌⊎◌, inl, inr, true, false, Option,
  none, some, [], ◌∷◌, ◌++◌, append_assoc, arith, ==_iff, Bool-cases, ok, >>=-eq-ok, length,
  length-append,
}
use ferumind.Text.{Text}
use ferumind.Text.Chars.{is_empty}
use ferumind.Text.Lines.{
  newline, split_lines, count_newlines, length-split_lines, split_lines-append,
}
use ferumind.Frontmatter.{extract_frontmatter_block}
use ferumind.Frontmatter.Laws.{extract_frontmatter_block_splits}
use ferumind.DocumentMap.{LineRange, ends_in_newline, block_end_line, frontmatter_line_range}

-- The frontmatter takes the lines of the block, up to the one in front of the body. A block that
-- ends in a newline has its lines to itself, and the lines of the body follow them; the last line of
-- another block belongs to the frontmatter as a whole.
pub record IsFrontmatter (content : Text) (range : Option LineRange) (body_start : ℕ) : Type 0 where
  pub first : 1 ≤ body_start
  pub last : body_start ≤ suc (length (split_lines content))
  pub extent :
      ((range ≡ none) × (body_start ≡ 1))
      ⊎ (range ≡ some (record { start_line = 1; end_line = body_start - 1 }))
  pub block : Text
  pub body : Text
  pub splits : extract_frontmatter_block content ≡ ok (block, body)
  pub absent : block ≡ [] → (range ≡ none) × (body_start ≡ 1)
  pub present : block ≢ [] → range ≡ some (record { start_line = 1; end_line = body_start - 1 })
  pub closed :
      (front : Text)
      → block ≡ front ++ newline ∷ []
      → (body_start ≡ suc (length (split_lines front)))
        × (split_lines content ≡ split_lines front ++ split_lines body)
  pub shared :
      block ≢ []
      → ((front : Text) → block ≢ front ++ newline ∷ [])
      → body_start ≡ suc (length (split_lines block))

count_newlines-append : (a b : Text) → count_newlines (a ++ b) ≡ count_newlines a + count_newlines b
unfolding count_newlines
count_newlines-append [] b = omega arith
count_newlines-append (c ∷ a) b = ground (arith, count_newlines-append a b)

block_end_line-le :
    (block body : Text) → block_end_line block ≤ length (split_lines (block ++ body))
unfolding block_end_line
block_end_line-le block body = ground (
  arith,
  length-split_lines block,
  length-split_lines (block ++ body),
  count_newlines-append block body,
)

ends_in_newline-append : (front : Text) → ends_in_newline (front ++ newline ∷ []) ≡ true
unfolding ends_in_newline
ends_in_newline-append [] = refl
ends_in_newline-append (c ∷ []) = refl
ends_in_newline-append (c ∷ d ∷ cs) = ends_in_newline-append (d ∷ cs)

ends_in_newline→append :
    (t : Text) → ends_in_newline t ≡ true → (front : Text) × (t ≡ front ++ newline ∷ [])
unfolding ends_in_newline
ends_in_newline→append [] h = absurd (cc)
ends_in_newline→append (c ∷ []) h = ([], ap (λ d. d ∷ []) ((==_iff c newline).0 h))
ends_in_newline→append (c ∷ d ∷ cs) h =
    let (front, e) = ends_in_newline→append (d ∷ cs) h in (c ∷ front, ap (λ t. c ∷ t) e)

-- A block that ends in a newline ends at the line of that newline.
block_end_line-closed :
    (front : Text) → block_end_line (front ++ newline ∷ []) ≡ length (split_lines front)
unfolding block_end_line
block_end_line-closed front =
    rw
      (
        ends_in_newline-append front,
        split_lines-append front [],
        length-append (split_lines front) (split_lines []),
      )
      (unfold split_lines in omega arith)

block_end_line-shared :
    (block : Text)
    → ((front : Text) → block ≢ front ++ newline ∷ [])
    → block_end_line block ≡ length (split_lines block)
unfolding block_end_line
block_end_line-shared block h = elim (Bool-cases (ends_in_newline block)) [
  | inl e ↦ let (front, p) = ends_in_newline→append block e in absurd (h front p)
  | inr e ↦ rw e refl
]

split_lines-closed :
    (content front body : Text) {block : Text}
    → block ++ body ≡ content
    → block ≡ front ++ newline ∷ []
    → split_lines content ≡ split_lines front ++ split_lines body
split_lines-closed content front body {block} whole e =
    let joined : content ≡ front ++ newline ∷ body =
      sym whole ∙ ap (λ t. t ++ body) e ∙ append_assoc front (newline ∷ []) body in
    rw joined (split_lines-append front body)

is_empty-nil : (t : Text) → is_empty t ≡ true → t ≡ []
is_empty-nil [] h = refl
is_empty-nil (c ∷ t) h = cc

-- Where the frontmatter range of a document is found, the body begins at a line from 1 to one
-- behind the last; for the block and the body that the document is split into, without a block the
-- range is none and the body begins at line 1, and otherwise the range goes from line 1 to the
-- line in front of the body; where the block ends in a newline, the lines of the document are
-- those of the block in front of that newline and then those of the body, which begins behind the
-- former; and where it does not, the body begins behind the last line of the block.
pub frontmatter_line_range-IsFrontmatter :
    (content : Text) {range : Option LineRange} {body_start : ℕ}
    → frontmatter_line_range content ≡ ok (range, body_start)
    → IsFrontmatter content range body_start
unfolding frontmatter_line_range
frontmatter_line_range-IsFrontmatter content {range} {body_start} h =
    let ((block, body), e, k) = >>=-eq-ok (extract_frontmatter_block content) _ h in
    let whole = extract_frontmatter_block_splits content e in
    let inside : block_end_line block ≤ length (split_lines content) =
      subst (λ t. block_end_line block ≤ length (split_lines t)) whole
        (block_end_line-le block body) in
    elim (Bool-cases (is_empty block)) [
      | inl none_there ↦
          let nothing = is_empty-nil block none_there in
          record {
            first = ground arith;
            last = ground arith;
            extent = inl (ground arith);
            block = block;
            body = body;
            splits = e;
            absent = λ q. ground arith;
            present = λ q. absurd (q nothing);
            closed = λ front q. absurd (append-ne_nil front (sym q ∙ nothing));
            shared = λ q r. absurd (q nothing);
          }
      | inr there ↦
          let starts : body_start ≡ suc (block_end_line block) = ground arith in
          record {
            first = ground arith;
            last = ground arith;
            extent = inr (ground arith);
            block = block;
            body = body;
            splits = e;
            absent = λ q. absurd (nonempty block there q);
            present = λ q. ground arith;
            closed = λ front q. (
              starts ∙ ap (λ t. suc (block_end_line t)) q ∙ ap suc (block_end_line-closed front),
              split_lines-closed content front body whole q,
            );
            shared = λ q r. starts ∙ ap suc (block_end_line-shared block r);
          }
    ]
  where
    append-ne_nil : (front : Text) → front ++ newline ∷ [] ≢ []
    append-ne_nil [] q = cc
    append-ne_nil (c ∷ cs) q = cc

    nonempty : (t : Text) → is_empty t ≡ false → t ≢ []
    nonempty [] h q = cc
    nonempty (c ∷ cs) h q = cc
