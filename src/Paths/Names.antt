-- ===== src/Paths/Names.antt =====
-- `PurePath.name`, `suffix` and `stem`, as Python 3.12 and 3.13 have them.
use ferumind.Common.{
  ℕ, suc, ◌&&◌, Option, none, some, List, [], ◌∷◌, ltb, ◌==◌, if◌then◌else◌, length, take, drop,
}
use ferumind.Text.{Text}
use ferumind.Paths.{components}

-- The last component, or nothing.
abbrev pub last_of : List Text → Text
last_of [] = []
last_of (part ∷ []) = part
last_of (part ∷ next ∷ parts) = last_of (next ∷ parts)

unfoldable pub name_of : Text → Text
unfolding components
name_of path = last_of (components path)

-- name.rfind("."), with `none` for -1
unfoldable pub last_dot : Text → Option ℕ
last_dot [] = none
last_dot (c ∷ cs) = elim (last_dot cs) [
  | some k ↦ some (suc k)
  | none ↦ if c == b'.' then some 0 else none
]

-- Where the suffix of a name begins: behind the first character, and not at the last one.
unfoldable pub suffix_at : Text → Option ℕ
unfolding last_dot
suffix_at name = elim (last_dot name) [
  | none ↦ none
  | some k ↦ if ltb 0 k && ltb (suc k) (length name) then some k else none
]

-- path.suffix, of a path with this name
unfoldable pub suffix_of_name : Text → Text
unfolding suffix_at
suffix_of_name name = elim (suffix_at name) [ none ↦ [] | some k ↦ drop k name ]

-- path.stem, of a path with this name
unfoldable pub stem_of_name : Text → Text
unfolding suffix_at
stem_of_name name = elim (suffix_at name) [ none ↦ name | some k ↦ take k name ]
