-- ===== src/Paths.antt =====
-- core/paths.py: `PurePosixPath`, and the containment of paths below a root.
pub mod Names
pub mod Contained
use ferumind.Common.{
  ℕ, Bool, true, false, not, ◌&&◌, ◌||◌, List, [], ◌∷◌, ◌++◌, ltb, ◌==◌, if◌then◌else◌, Kind,
  Result, ok, ◌>>=◌, ◌>>◌, raise_if, filter,
}
use ferumind.Text.{Text}
use ferumind.Text.Chars.{codes, text_eq, is_empty, utf8_length}
use ferumind.Text.Split.{split_on, join_on}

abbrev pub slash : ℕ
slash = b'/'

-- The root of a POSIX path: two slashes in front, and no third, are a root of their own.
abbrev pub root_of : Text → Text
root_of [] = []
root_of (a ∷ []) = if a == slash then slash ∷ [] else []
root_of (a ∷ b ∷ []) =
    if a == slash then (if b == slash then slash ∷ slash ∷ [] else slash ∷ []) else []
root_of (a ∷ b ∷ c ∷ t) =
    if a == slash
    then (if (b == slash) && not (c == slash) then slash ∷ slash ∷ [] else slash ∷ [])
    else []

-- Not empty and not `.`
abbrev pub is_component : Text → Bool
is_component part = not (is_empty part) && not (text_eq part (codes "."))

-- The components behind the root.
unfoldable pub components : Text → List Text
unfolding split_on
components path = filter is_component (split_on slash path)

-- PurePosixPath(path).parts
unfoldable pub parts_of : Text → List Text
unfolding components
parts_of path = if is_empty (root_of path) then components path else root_of path ∷ components path

-- PurePosixPath(path).as_posix(), and str(PurePosixPath(path))
unfoldable pub as_posix : Text → Text
unfolding components join_on
as_posix path =
    if is_empty (root_of path) && is_empty (components path)
    then codes "."
    else root_of path ++ join_on slash (components path)

-- A resolved path: its components below the root of the file system.
abbrev pub Location : Type 0
Location = List Text

-- What the file system tells of a path: `is_symlink`, and `resolve`.
pub record Filesystem : Type 0 where
  pub is_symlink : Location → Bool
  pub resolve : Location → Location

abbrev pub max_relative_path_bytes : ℕ
max_relative_path_bytes = 4096

abbrev pub max_path_component_bytes : ℕ
max_path_component_bytes = 255

-- ord(character) < 32 or ord(character) == 127
abbrev pub is_control : ℕ → Bool
is_control c = ltb c 32 || c == 127

-- any(...)
unfoldable pub any_char : (ℕ → Bool) → Text → Bool
any_char p [] = false
any_char p (c ∷ cs) = p c || any_char p cs

-- candidate.relative_to(root) succeeds
unfoldable pub is_below : Location → Location → Bool
is_below candidate [] = true
is_below [] (part ∷ root) = false
is_below (name ∷ candidate) (part ∷ root) = text_eq name part && is_below candidate root

-- len(part.encode("utf-8")) > MAX_PATH_COMPONENT_BYTES, for some part
unfoldable pub any_long : List Text → Bool
any_long [] = false
any_long (part ∷ parts) = ltb max_path_component_bytes (utf8_length part) || any_long parts

module _ (filesystem : Filesystem) where
  unfoldable pub is_under_root : Location → Location → Bool
  unfolding is_below
  is_under_root candidate root = is_below (filesystem.resolve candidate) (filesystem.resolve root)

  -- The loop over the parts, from the location `current`.
  unfoldable pub walk : Location → Location → List Text → Result (Unit {0})
  unfolding is_below
  walk root current [] = ok tt
  walk root current (part ∷ parts) =
      let skipped = walk root current parts in
      let rest = walk root (current ++ (part ∷ [])) parts in
      if not (is_component part) then skipped else do
        raise_if (text_eq part (codes "..")) Kind.path_safety
        raise_if (not (is_below (current ++ (part ∷ [])) root)) Kind.path_safety
        raise_if (filesystem.is_symlink (current ++ (part ∷ []))) Kind.path_safety
        rest

  unfoldable pub contained_path : Location → Text → Result Location
  unfolding parts_of as_posix any_char any_long walk is_under_root
  contained_path root user_path = do
    raise_if
        (is_empty user_path
          || (ltb max_relative_path_bytes (utf8_length user_path)
              || (any_char (λ c. c == b'\\') user_path || any_char is_control user_path)))
        Kind.path_safety
    raise_if (not (is_empty (root_of user_path))) Kind.path_safety
    raise_if (not (text_eq user_path (codes ".")) && not (text_eq (as_posix user_path) user_path))
        Kind.path_safety
    raise_if (any_long (parts_of user_path)) Kind.path_safety
    walk (filesystem.resolve root) (filesystem.resolve root) (parts_of user_path)
    let candidate = filesystem.resolve (filesystem.resolve root ++ parts_of user_path)
    raise_if (not (is_under_root candidate (filesystem.resolve root))) Kind.path_safety
    ok candidate

  unfoldable pub contained_project_root : Location → Text → Result Location
  unfolding contained_path
  contained_project_root workspace project_key = do
    projects_root ← contained_path workspace (codes "projects")
    contained_path projects_root project_key
