-- ===== src/Proposals/FieldLines.antt =====
-- The line of a field in a frontmatter block, as `_frontmatter_field_line` finds it.
use ferumind.Common.{
  ℕ, ◌≡◌, refl, sym, ap, ◌∙◌, inl, inr, Bool, true, false, some, [], ◌∷◌, ◌++◌, append_assoc, arith,
  ◌==◌, ==_iff, Bool-cases, Option-cases, ok, >>=-eq-ok, length, drop,
}
use ferumind.Text.{Text}
use ferumind.Text.Chars.{
  starts_with, take_while, drop_while, starts_with→append, take_while-append-drop_while,
}
use ferumind.Text.Lines.{newline}
use ferumind.Text.Spans.{AllOf, StartsLine, EndsLine, take_while-AllOf, starts_later}
use ferumind.Frontmatter.{extract_frontmatter_block}
use ferumind.Proposals.FullMode.{
  is_blank, in_line, at_line_end, match_value, match_field, search_field, frontmatter_field_line,
}

-- The key, blanks, a colon and a value without a line break, up to the end of the line.
pub record IsField (key line rest : Text) : Type 0 where
  pub blanks : Text
  pub value : Text
  pub parts : line ≡ key ++ (blanks ++ b':' ∷ value)
  pub blank : AllOf is_blank blanks
  pub inside : AllOf in_line value
  pub stops : EndsLine rest

-- The line is a whole line of the frontmatter block of the content, and begins with the key, blanks
-- and a colon.
pub record IsFieldLine (content key line : Text) : Type 0 where
  pub block : Text
  pub body : Text
  pub splits : extract_frontmatter_block content ≡ ok (block, body)
  pub front : Text
  pub rest : Text
  pub whole : block ≡ front ++ (line ++ rest)
  pub starts : StartsLine true front
  pub field : IsField key line rest

at_line_end-EndsLine : (t : Text) → at_line_end t ≡ true → EndsLine t
at_line_end-EndsLine [] h = inl refl
at_line_end-EndsLine (c ∷ cs) h = inr (cs, ap (λ d. d ∷ cs) ((==_iff c newline).0 h))

-- The value that is matched, and what is behind it.
match_value-parts :
    (front t : Text) {line : Text}
    → match_value front t ≡ some line
    → (value : Text) × (rest : Text) × (line ≡ front ++ b':' ∷ value)
      × (t ≡ b':' ∷ (value ++ rest))
      × AllOf in_line value
      × EndsLine rest
match_value-parts front [] h = absurd (cc)
match_value-parts front (c ∷ cs) {line} h =
    let ends : at_line_end (drop_while in_line cs) ≡ true = ground arith in
    let colon : (c == b':') ≡ true = ground arith in
    let same = (==_iff c b':').0 colon in
    let built : front ++ c ∷ take_while in_line cs ≡ line = ground arith in
    (
      take_while in_line cs,
      drop_while in_line cs,
      sym built ∙ ap (λ d. front ++ d ∷ take_while in_line cs) same,
      ap (λ d. d ∷ cs) same ∙ ap (λ u. b':' ∷ u) (sym (take_while-append-drop_while in_line cs)),
      take_while-AllOf in_line cs,
      at_line_end-EndsLine (drop_while in_line cs) ends,
    )

match_field-IsField :
    (key text : Text) {line : Text}
    → match_field key text ≡ some line
    → (rest : Text) × (text ≡ line ++ rest) × IsField key line rest
unfolding match_field
match_field-IsField key text {line} h = elim (Bool-cases (starts_with text key)) [
  | inr e ↦ absurd (ground arith)
  | inl e ↦
      let behind = drop (length key) text in
      let blanks = take_while is_blank behind in
      let matched : match_value (key ++ blanks) (drop_while is_blank behind) ≡ some line =
        ground arith in
      let (value, rest, built, split, inside, stops) =
        match_value-parts (key ++ blanks) (drop_while is_blank behind) matched in
      let joined : line ≡ key ++ (blanks ++ b':' ∷ value) =
        built ∙ append_assoc key blanks (b':' ∷ value) in
      let parted : behind ≡ blanks ++ b':' ∷ (value ++ rest) =
        sym (take_while-append-drop_while is_blank behind) ∙ ap (λ t. blanks ++ t) split in
      let whole : text ≡ line ++ rest =
        starts_with→append text key e
        ∙ ap (λ t. key ++ t) parted
        ∙ sym (
            ap (λ t. t ++ rest) joined
            ∙ append_assoc key (blanks ++ b':' ∷ value) rest
            ∙ ap (λ t. key ++ t) (append_assoc blanks (b':' ∷ value) rest)) in
      (
        rest,
        whole,
        record {
          blanks = blanks;
          value = value;
          parts = joined;
          blank = take_while-AllOf is_blank behind;
          inside = inside;
          stops = stops;
        },
      )
]

-- The line that is found in a text.
abbrev IsFound : Text → Bool → Text → Text → Type 0
IsFound key at_start t line =
    (front : Text) × (rest : Text) × (t ≡ front ++ (line ++ rest))
    × StartsLine at_start front
    × IsField key line rest

IsFound-here :
    (key t : Text) {line : Text} → match_field key t ≡ some line → IsFound key true t line
IsFound-here key t h =
    let (rest, whole, field) = match_field-IsField key t h in
    ([], rest, whole, inl (refl, refl), field)

IsFound-later :
    (key : Text) (at_start : Bool) (c : ℕ) (cs : Text) {line : Text}
    → IsFound key (c == newline) cs line
    → IsFound key at_start (c ∷ cs) line
IsFound-later key at_start c cs (front, rest, whole, starts, field) =
    (c ∷ front, rest, ap (λ t. c ∷ t) whole, starts_later at_start c front starts, field)

search_field-IsFound :
    (key : Text) (at_start : Bool) (t : Text) {line : Text}
    → search_field key at_start t ≡ some line
    → IsFound key at_start t line
unfolding search_field
search_field-IsFound key true [] h = IsFound-here key [] h
search_field-IsFound key false [] h = absurd (cc)
search_field-IsFound key true (c ∷ cs) {line} h = elim (Option-cases (match_field key (c ∷ cs))) [
  | inl e ↦ IsFound-later key true c cs (search_field-IsFound key (c == newline) cs (ground arith))
  | inr (l, e) ↦ let same : l ≡ line = ground arith in IsFound-here key (c ∷ cs) (e ∙ ap some same)
]
search_field-IsFound key false (c ∷ cs) h =
    IsFound-later key false c cs (search_field-IsFound key (c == newline) cs (ground arith))

-- A line that is found for a key is a line of that key.
pub frontmatter_field_line-IsFieldLine :
    (content key : Text) {line : Text}
    → frontmatter_field_line content key ≡ ok (some line)
    → IsFieldLine content key line
unfolding frontmatter_field_line
frontmatter_field_line-IsFieldLine content key {line} h =
    let ((block, body), e, k) = >>=-eq-ok (extract_frontmatter_block content) _ h in
    let searched : search_field key true block ≡ some line = ground arith in
    let (front, rest, whole, starts, field) = search_field-IsFound key true block searched in
    record {
      block = block;
      body = body;
      splits = e;
      front = front;
      rest = rest;
      whole = whole;
      starts = starts;
      field = field;
    }
