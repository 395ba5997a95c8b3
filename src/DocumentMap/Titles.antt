-- ===== src/DocumentMap/Titles.antt =====
-- core/frontmatter.py: `infer_title`.
use ferumind.Common.{
  ℕ, Bool, true, false, not, ◌&&◌, ◌||◌, Option, none, some, [], ◌∷◌, map, ◌==◌, if◌then◌else◌,
  length, drop, filter, get_last?,
}
use ferumind.Text.{Text}
use ferumind.Text.Chars.{codes, is_space, is_empty, strip, take_while, drop_while, starts_with}
use ferumind.Text.Lines.{newline}
use ferumind.Runtime.{Runtime}
use ferumind.Runtime.Json.{str, JsonObject, lookup}

abbrev is_not_newline : ℕ → Bool
is_not_newline c = not (c == newline)

-- `\s+(.+)$` behind the `#`: the group. Where white space runs to the end of the text, the group is
-- the last character of it that is no newline, behind the first one.
unfoldable pub h1_text : Text → Option Text
h1_text t =
    let run = take_while is_space t in
    let rest = drop_while is_space t in
    if is_empty run
    then none
    else if is_empty rest
    then elim (get_last? (filter is_not_newline (drop 1 run))) [
      | none ↦ none
      | some c ↦ some (c ∷ [])
    ]
    else some (take_while is_not_newline rest)

-- re.search(r"^#\s+(.+)$", body, re.MULTILINE): the group; the flag says that the text starts a line.
unfoldable pub find_h1 : Bool → Text → Option Text
find_h1 start [] = none
find_h1 start (c ∷ cs) =
    let later = find_h1 (c == newline) cs in
    elim (if start && (c == b'#') then h1_text cs else none) [ some t ↦ some t | none ↦ later ]

-- path.rsplit("/", 1)[-1]
unfoldable pub file_name : Text → Text
file_name [] = []
file_name (c ∷ cs) =
    let later = file_name cs in
    if contains_slash cs then later else if c == b'/' then cs else c ∷ cs
  where
    contains_slash : Text → Bool
    contains_slash [] = false
    contains_slash (d ∷ ds) = d == b'/' || contains_slash ds

-- name.removesuffix(".md")
unfoldable pub remove_suffix : Text → Text
remove_suffix [] = []
remove_suffix (c ∷ cs) = let rest = remove_suffix cs in if is_md (c ∷ cs) then [] else c ∷ rest
  where
    is_md : Text → Bool
    is_md t = starts_with t (codes ".md") && length t == 3

-- .replace("-", " ").replace("_", " ")
abbrev pub spaced : Text → Text
spaced = map (λ c. if c == b'-' || c == b'_' then 32 else c)

-- The title that the frontmatter gives.
unfoldable pub frontmatter_title : JsonObject → Option Text
frontmatter_title frontmatter = elim (lookup (codes "title") frontmatter) [
  | none ↦ none
  | some v ↦ elim v [ str t ↦ if is_empty (strip t) then none else some (strip t) | _ ↦ none ]
]

unfoldable pub infer_title : Runtime → JsonObject → Text → Text → Text
infer_title rt frontmatter body path = elim (frontmatter_title frontmatter) [
  | some t ↦ t
  | none ↦ elim (find_h1 true body) [
    | some t ↦ strip t
    | none ↦ strip (rt.title (spaced (remove_suffix (file_name path))))
  ]
]
