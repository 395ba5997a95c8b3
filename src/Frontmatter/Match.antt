-- ===== src/Frontmatter/Match.antt =====
-- `_match_frontmatter`: the regular expressions of core/frontmatter.py, with their backtracking.
use ferumind.Common.{
  Bool, true, false, ◌&&◌, ◌||◌, Option, none, some, [], ◌∷◌, ◌++◌, ◌==◌, if◌then◌else◌, Kind,
  Result, ok, raise, drop,
}
use ferumind.Text.{Text}
use ferumind.Text.Chars.{is_space, lstrip, take_while, drop_while, starts_with}
use ferumind.Text.Lines.{newline}

-- `---`
abbrev pub dashes : Text
dashes = b'-' ∷ b'-' ∷ b'-' ∷ []

pub record FrontmatterMatch : Type 0 where
  -- match.group(0)
  pub block : Text
  -- match.group(1)
  pub group : Text
  -- content[match.end():]
  pub body : Text

-- `(.*?\n)---`: the shortest group, and the text behind the dashes.
unfoldable pub close_group : Text → Option (Text × Text)
close_group [] = none
close_group (c ∷ cs) =
    let later = close_group cs in
    if (c == newline) && starts_with cs dashes
    then some (c ∷ [], drop 3 cs)
    else elim later [ none ↦ none | some (g, rest) ↦ some (c ∷ g, rest) ]

-- `\s*\n(.*?\n)---`: the longest run of white space is tried first. The blank text in front, the
-- group, and the text behind.
unfoldable pub open_group : Text → Option (Text × Text × Text)
open_group [] = none
open_group (c ∷ cs) =
    let longer = open_group cs in
    if is_space c
    then elim longer [
      | some (lead, g, rest) ↦ some (c ∷ lead, g, rest)
      | none ↦ elim (if c == newline then close_group cs else none) [
        | none ↦ none
        | some (g, rest) ↦ some (c ∷ [], g, rest)
      ]
    ]
    else none

-- _FRONTMATTER_RE.match(content)
unfoldable pub match_block : Text → Option FrontmatterMatch
match_block content = elim (starts_with content dashes) [
  | false ↦ none
  | true ↦ elim (open_group (drop 3 content)) [
    | none ↦ none
    | some (lead, g, rest) ↦ some (record {
      block = dashes ++ (lead ++ (g ++ (dashes ++ take_while is_space rest)));
      group = g;
      body = lstrip rest;
    })
  ]
]

-- `\r?\n`
abbrev opens_line : Text → Bool
opens_line [] = false
opens_line (c ∷ []) = c == newline
opens_line (c ∷ d ∷ cs) = c == newline || (c == 13 && d == newline)

-- _FRONTMATTER_OPEN_RE.match(content)
unfoldable pub opens_frontmatter : Text → Bool
opens_frontmatter content =
    starts_with content dashes && opens_line (drop_while (λ c. c == 32 || c == 9) (drop 3 content))

unfoldable pub match_frontmatter : Text → Result (Option FrontmatterMatch)
match_frontmatter content = elim (match_block content) [
  | some m ↦ ok (some m)
  | none ↦ if opens_frontmatter content then raise Kind.frontmatter_invalid else ok none
]
