-- ===== src/Frontmatter/Updated.antt =====
-- What `set_frontmatter_updated` does to a frontmatter block.
use ferumind.Common.{
  ℕ, ◌≡◌, refl, sym, ap, ◌∙◌, subst, ◌⊎◌, inl, inr, Bool, true, false, ◌&&◌, some, List, [], ◌∷◌,
  ◌++◌, append_assoc, arith, ◌==◌, ==_iff, Bool-cases, Option-cases, ok, drop,
}
use ferumind.Text.{Text}
use ferumind.Text.Chars.{
  codes, is_empty, is_space, lstrip, strip, rstrip_of, take_while, drop_while, starts_with,
}
use ferumind.Text.Lines.{newline, split_lines, join_lines, split_lines-append}
use ferumind.Text.Spans.{AllOf, take_while-AllOf}
use ferumind.Frontmatter.{
  sub_updated, insert_at_close, set_frontmatter_updated, extract_frontmatter_block,
}
use ferumind.Frontmatter.Match.{
  FrontmatterMatch, dashes, close_group, open_group, match_block, match_frontmatter,
}
use ferumind.Frontmatter.Stamp.{
  IsReplaced, IsInserted, sub_updated-IsReplaced, insert_at_close-IsInserted, insert_at_close-found,
}

close_group-ends :
    (t : Text) {g rest : Text}
    → close_group t ≡ some (g, rest)
    → (f : Text) × (g ≡ f ++ newline ∷ [])
unfolding close_group
close_group-ends [] h = absurd (cc)
close_group-ends (c ∷ cs) {g} h = elim (Bool-cases ((c == newline) && starts_with cs dashes)) [
  | inl e ↦
      let same : c ∷ [] ≡ g = ground (arith, e) in
      let line : (c == newline) ≡ true = ground (arith, e) in
      ([], sym same ∙ ap (λ d. d ∷ []) ((==_iff c newline).0 line))
  | inr e ↦ elim (Option-cases (close_group cs)) [
    | inl n ↦ absurd (ground (arith, e, n))
    | inr ((g', r), m) ↦
        let (f, p) = close_group-ends cs m in
        let same : c ∷ g' ≡ g = ground (arith, e, m) in (c ∷ f, sym same ∙ ap (λ t. c ∷ t) p)
  ]
]

open_group-ends :
    (t : Text) {lead g rest : Text}
    → open_group t ≡ some (lead, g, rest)
    → (f : Text) × (g ≡ f ++ newline ∷ [])
unfolding open_group
open_group-ends [] h = absurd (cc)
open_group-ends (c ∷ cs) {g = g} h = elim (Option-cases (open_group cs)) [
  | inr ((l, g', r), m) ↦
      let same : g' ≡ g = ground (arith, m) in
      subst (λ t. (f : Text) × (t ≡ f ++ newline ∷ [])) same (open_group-ends cs m)
  | inl n ↦ elim (Option-cases (close_group cs)) [
    | inl n' ↦ absurd (ground (arith, n, n'))
    | inr ((g', r), m) ↦
        let same : g' ≡ g = ground (arith, n, m) in
        subst (λ t. (f : Text) × (t ≡ f ++ newline ∷ [])) same (close_group-ends cs m)
  ]
]

-- The block ends in a line that begins with dashes, and white space behind them.
match_block-ends :
    (t : Text) {m : FrontmatterMatch}
    → match_block t ≡ some m
    → (front : Text) × (spaces : Text) × (m.block ≡ front ++ newline ∷ (dashes ++ spaces))
      × AllOf is_space spaces
unfolding match_block
match_block-ends t {m} h = elim (Bool-cases (starts_with t dashes)) [
  | inr e ↦ absurd (cc)
  | inl e ↦ elim (Option-cases (open_group (drop 3 t))) [
    | inl n ↦ absurd (cc)
    | inr ((lead, g, rest), o) ↦
        let (f, p) = open_group-ends (drop 3 t) o in
        let spaces = take_while is_space rest in
        let built : dashes ++ (lead ++ (g ++ (dashes ++ spaces))) ≡ m.block = ground arith in
        let parted : g ++ (dashes ++ spaces) ≡ f ++ newline ∷ (dashes ++ spaces) =
          ap (λ u. u ++ (dashes ++ spaces)) p ∙ append_assoc f (newline ∷ []) (dashes ++ spaces) in
        (
          dashes ++ (lead ++ f),
          spaces,
          sym built
              ∙ ap (λ u. dashes ++ (lead ++ u)) parted
              ∙ ap (λ u. dashes ++ u) (sym (append_assoc lead f (newline ∷ (dashes ++ spaces)))),
          take_while-AllOf is_space rest,
        )
  ]
]

first_line-AllOf :
    (p : ℕ → Bool) (t : Text)
    → AllOf p t
    → (l : Text) × (ls : List Text) × (split_lines t ≡ l ∷ ls) × AllOf p l
unfolding split_lines
first_line-AllOf p [] a = ([], [], refl, tt)
first_line-AllOf p (c ∷ cs) (q, a) = elim (Bool-cases (c == newline)) [
  | inl e ↦ ([], split_lines cs, rw e refl, tt)
  | inr e ↦ let (l, ls, s, b) = first_line-AllOf p cs a in (c ∷ l, ls, rw (e, s) refl, (q, b))
]

rstrip_of-AllOf : (p : ℕ → Bool) (t : Text) → AllOf p t → rstrip_of p t ≡ []
unfolding rstrip_of
rstrip_of-AllOf p [] a = refl
rstrip_of-AllOf p (c ∷ cs) (q, a) = rw (rstrip_of-AllOf p cs a, q) refl

strip-dashes : (l : Text) → AllOf is_space l → strip (dashes ++ l) ≡ dashes
unfolding strip rstrip_of lstrip drop_while is_space
strip-dashes l a = rw (rstrip_of-AllOf is_space l a) refl

-- Some line of the block strips to dashes.
closing_line :
    (front spaces : Text)
    → AllOf is_space spaces
    → (l : Text) × (ls : List Text) × (split_lines (front ++ newline ∷ (dashes ++ spaces))
        ≡ split_lines front ++ l ∷ ls)
      × (strip l ≡ dashes)
closing_line front spaces a =
    let (l, ls, s, b) = first_line-AllOf is_space spaces a in
    (
      dashes ++ l,
      ls,
      split_lines-append front (dashes ++ spaces)
          ∙ ap (λ u. split_lines front ++ u) (unfold split_lines in rw s refl),
      strip-dashes l b,
    )

-- The block has the new line for its old one, or else in front of a line of dashes.
abbrev pub IsUpdated : Text → Text → Text → Type 0
IsUpdated line block stamped =
    IsReplaced true line block stamped
    ⊎ ((lines : List Text) × IsInserted line (split_lines block) lines
        × (stamped ≡ join_lines lines))

set_frontmatter_updated-closed :
    (block now front spaces : Text)
    → block ≡ front ++ newline ∷ (dashes ++ spaces)
    → AllOf is_space spaces
    → IsUpdated (codes "updated: " ++ now) block (set_frontmatter_updated block now)
unfolding set_frontmatter_updated
set_frontmatter_updated-closed block now front spaces h a =
    let line = codes "updated: " ++ now in
    elim (Option-cases (sub_updated line true block)) [
      | inr (t, e) ↦
          let same : t ≡ set_frontmatter_updated block now = ground (arith, e) in
          inl (subst (IsReplaced true line block) same (sub_updated-IsReplaced line true block e))
      | inl n ↦
          let (l, ls, s, d) = closing_line front spaces a in
          let (ms, f) = insert_at_close-found line (split_lines front) l ls d in
          let found : insert_at_close line (split_lines block) ≡ some ms =
            ap (λ t. insert_at_close line (split_lines t)) h
            ∙ ap (λ t. insert_at_close line t) s
            ∙ f in
          inr (
            ms,
            insert_at_close-IsInserted line (split_lines block) found,
            ground (arith, n, found),
          )
    ]

-- A frontmatter block of a document that is not empty gets the new stamp.
pub set_frontmatter_updated-IsUpdated :
    (content now : Text) {block body : Text}
    → extract_frontmatter_block content ≡ ok (block, body)
    → is_empty block ≡ false
    → IsUpdated (codes "updated: " ++ now) block (set_frontmatter_updated block now)
unfolding extract_frontmatter_block match_frontmatter
set_frontmatter_updated-IsUpdated content now {block} h there =
    elim (Option-cases (match_block content)) [
      | inl n ↦ absurd (ground arith)
      | inr (m, e) ↦
          let same : m.block ≡ block = ground arith in
          let (front, spaces, p, a) = match_block-ends content e in
          set_frontmatter_updated-closed block now front spaces (sym same ∙ p) a
    ]
