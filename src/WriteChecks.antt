-- ===== src/WriteChecks.antt =====
-- core/write_common.py: the checks in front of a write.
use ferumind.Common.{
  ℕ, Bool, false, not, ◌&&◌, ◌||◌, Option, none, some, List, [], ◌∷◌, ltb, ◌==◌, if◌then◌else◌,
  Kind, Result, ok, err, ◌>>=◌, ◌>>◌, raise, raise_if, length, get_last?,
}
use ferumind.Text.{Text}
use ferumind.Text.Chars.{codes, is_empty, strip, text_eq, starts_with, utf8_length}
use ferumind.Runtime.{Runtime}
use ferumind.Runtime.Json.{contains}
use ferumind.Paths.{
  slash, parts_of, as_posix, is_control, any_char, Location, Filesystem, is_under_root,
  contained_path, contained_project_root,
}
use ferumind.Paths.Names.{last_of, suffix_of_name}

abbrev pub max_mutated_markdown_bytes : ℕ
max_mutated_markdown_bytes = 5242880

abbrev pub max_title_chars : ℕ
max_title_chars = 512

abbrev pub allowed_extensions : List Text
allowed_extensions = codes ".md" ∷ []

unfoldable pub validate_markdown_size : Text → Result (Unit {0})
unfolding utf8_length
validate_markdown_size content =
    raise_if (ltb max_mutated_markdown_bytes (utf8_length content)) Kind.file_too_large

unfoldable pub validate_title : Text → Result (Unit {0})
unfolding strip any_char
validate_title title = do
  raise_if (is_empty (strip title)) Kind.validation
  raise_if (ltb max_title_chars (length title)) Kind.validation
  raise_if (any_char is_control title) Kind.validation

-- any(part.startswith(".") for part in parts)
unfoldable pub any_hidden : List Text → Bool
unfolding starts_with
any_hidden [] = false
any_hidden (part ∷ parts) = starts_with part (codes ".") || any_hidden parts

-- any(part in (".", "..") for part in parts)
unfoldable pub any_dots : List Text → Bool
unfolding text_eq
any_dots [] = false
any_dots (part ∷ parts) = (text_eq part (codes ".") || text_eq part (codes "..")) || any_dots parts

-- text.endswith("/")
abbrev pub ends_in_slash : Text → Bool
ends_in_slash text = elim (get_last? text) [ none ↦ false | some c ↦ c == slash ]

-- "//" in text
unfoldable pub has_double_slash : Text → Bool
has_double_slash [] = false
has_double_slash (c ∷ cs) = ((c == slash) && starts_with cs (codes "/")) || has_double_slash cs

-- A slash at an end, a backslash, two slashes, a dotted part, or another spelling.
unfoldable pub is_ambiguous : Text → Bool
unfolding any_char any_dots has_double_slash parts_of as_posix
is_ambiguous cleaned =
    starts_with cleaned (codes "/")
    || (ends_in_slash cleaned
        || (any_char (λ c. c == b'\\') cleaned
            || (has_double_slash cleaned
                || (any_dots (parts_of cleaned) || not (text_eq (as_posix cleaned) cleaned)))))

unfoldable pub canonical_folder_path : Text → Bool → Result Text
unfolding strip any_char is_ambiguous
canonical_folder_path folder_path allow_empty =
    raise_if (not (text_eq folder_path (strip folder_path)) || any_char is_control folder_path)
      Kind.validation
    >> (if is_empty (strip folder_path)
        then (if allow_empty then ok [] else raise Kind.unknown_folder)
        else raise_if (is_ambiguous (strip folder_path)) Kind.validation >> ok (strip folder_path))

-- `except PathSafetyError: raise WorkspaceMismatchError`
abbrev pub or_mismatch : Result Location → Result Location
or_mismatch (ok location) = ok location
or_mismatch (err exception) = raise Kind.workspace_mismatch

-- The extensions that a path may have: not a denied one, or Markdown alone.
unfoldable pub check_extension : Option (List Text) → Text → Result (Unit {0})
unfolding contains
check_extension (some denylist) suffix =
    raise_if (contains denylist suffix) Kind.unsupported_file_type
check_extension none suffix = raise_if (not (contains allowed_extensions suffix)) Kind.validation

module _ (rt : Runtime) (filesystem : Filesystem) where
  unfoldable pub validate_path_safe : Location → Text → Text → Option (List Text) → Result Location
  unfolding contained_project_root contained_path is_under_root any_hidden suffix_of_name
      check_extension parts_of
  validate_path_safe workspace_root project_key user_path extensions_denylist = do
    project_root ← contained_project_root filesystem workspace_root project_key
    resolved ← or_mismatch (contained_path filesystem project_root user_path)
    raise_if (not (is_under_root filesystem resolved project_root)) Kind.workspace_mismatch
    raise_if (any_hidden (parts_of user_path)) Kind.workspace_mismatch
    check_extension extensions_denylist (rt.lower (suffix_of_name (last_of resolved)))
    ok resolved
