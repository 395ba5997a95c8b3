-- ===== src/Frontmatter/Laws.antt =====
-- What `extract_frontmatter_block` of core/frontmatter.py splits a document into.
use ferumind.Common.{
  ◌≡◌, refl, sym, ◌∙◌, inl, inr, some, [], ◌∷◌, ◌++◌, append_assoc, arith, Bool-cases, Option-cases,
  ok, drop,
}
use ferumind.Text.{Text}
use ferumind.Text.Chars.{
  is_space, lstrip, take_while, drop_while, starts_with, starts_with→append,
  take_while-append-drop_while,
}
use ferumind.Frontmatter.{extract_frontmatter_block}
use ferumind.Frontmatter.Match.{
  FrontmatterMatch, dashes, close_group, open_group, match_block, match_frontmatter,
}

close_group_splits :
    (t : Text) {g rest : Text} → close_group t ≡ some (g, rest) → t ≡ g ++ (dashes ++ rest)
unfolding close_group
close_group_splits [] h = cc
close_group_splits (c ∷ cs) h = grind (arith, close_group_splits cs, starts_with→append cs dashes)

open_group_splits :
    (t : Text) {lead g rest : Text}
    → open_group t ≡ some (lead, g, rest)
    → t ≡ lead ++ (g ++ (dashes ++ rest))
unfolding open_group
open_group_splits [] h = cc
open_group_splits (c ∷ cs) h = grind (arith, open_group_splits cs, close_group_splits cs)

append_parts :
    (a b c d w e : Text) → (a ++ (b ++ (c ++ (d ++ w)))) ++ e ≡ a ++ (b ++ (c ++ (d ++ (w ++ e))))
append_parts a b c d w e = rw (append_assoc a, append_assoc b, append_assoc c, append_assoc d) refl

splits_of_parts :
    (t lead g rest : Text)
    → t ≡ dashes ++ drop 3 t
    → drop 3 t ≡ lead ++ (g ++ (dashes ++ rest))
    → (dashes ++ (lead ++ (g ++ (dashes ++ take_while is_space rest)))) ++ lstrip rest ≡ t
unfolding lstrip
splits_of_parts t lead g rest parts opened =
    append_parts dashes lead g dashes (take_while is_space rest) (drop_while is_space rest)
    ∙ rw (take_while-append-drop_while is_space rest, sym opened) (sym parts)

match_block_splits :
    (t : Text) {m : FrontmatterMatch} → match_block t ≡ some m → m.block ++ m.body ≡ t
unfolding match_block
match_block_splits t {m} h = elim (Bool-cases (starts_with t dashes)) [
  | inr e ↦ absurd (cc)
  | inl e ↦ elim (Option-cases (open_group (drop 3 t))) [
    | inl n ↦ absurd (cc)
    | inr ((lead, g, rest), o) ↦
        let built =
          splits_of_parts t lead g rest (starts_with→append t dashes e)
            (open_group_splits (drop 3 t) o) in
        ground arith
  ]
]

-- Where a document is split into a frontmatter block and a body, the block and the body make up
-- the document.
pub extract_frontmatter_block_splits :
    (content : Text) {block body : Text}
    → extract_frontmatter_block content ≡ ok (block, body)
    → block ++ body ≡ content
unfolding extract_frontmatter_block match_frontmatter
extract_frontmatter_block_splits content h = elim (Option-cases (match_block content)) [
  | inl n ↦ ground arith
  | inr (m, e) ↦ let whole = match_block_splits content e in ground arith
]
