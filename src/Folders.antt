-- ===== src/Folders.antt =====
-- core/folders.py: the role of a document, from the first part of its path.
pub mod Mirror
use ferumind.Common.{
  Bool, false, Option, none, some, List, [], ◌∷◌, ◌++◌, if◌then◌else◌, Kind, Result, ok, raise,
}
use ferumind.Text.{Text}
use ferumind.Text.Chars.{codes, text_eq}
use ferumind.Text.Split.{join_on}
use ferumind.Paths.{slash, parts_of, as_posix}

pub data Folder : Type 0 where
  spine rules canvases memory library inbox archive : Folder

-- folder_literals.get(first)
unfoldable pub folder_literal : Text → Option Folder
folder_literal first =
    if text_eq first (codes "rules")
    then some rules
    else if text_eq first (codes "canvases")
    then some canvases
    else if text_eq first (codes "memory")
    then some memory
    else if text_eq first (codes "library")
    then some library
    else if text_eq first (codes "inbox")
    then some inbox
    else if text_eq first (codes "archive")
    then some archive
    else none

-- The folder of the parts of a path.
unfoldable pub folder_of_parts : List Text → Result Folder
unfolding folder_literal
folder_of_parts [] = raise Kind.unknown_folder
folder_of_parts (name ∷ []) =
    if text_eq name (codes "spine.md") then ok spine else raise Kind.unknown_folder
folder_of_parts (first ∷ second ∷ parts) = elim (folder_literal first) [
  | none ↦ raise Kind.unknown_folder
  | some folder ↦ ok folder
]

unfoldable pub folder_of : Text → Result Folder
unfolding folder_of_parts parts_of
folder_of path = folder_of_parts (parts_of path)

-- bool(parts) and parts[0] == "archive"
abbrev pub starts_archived : List Text → Bool
starts_archived [] = false
starts_archived (first ∷ parts) = text_eq first (codes "archive")

unfoldable pub is_archived_path : Text → Bool
unfolding parts_of
is_archived_path path = starts_archived (parts_of path)

-- DEFAULT_EDIT_POLICY[folder]
unfoldable pub default_edit_policy : Folder → Text
default_edit_policy spine = codes "propose-first"
default_edit_policy rules = codes "ask-human"
default_edit_policy canvases = codes "free"
default_edit_policy memory = codes "free"
default_edit_policy library = codes "propose-first"
default_edit_policy inbox = codes "free"
default_edit_policy archive = codes "propose-first"

unfoldable pub archive_path_for : Text → Text
archive_path_for path = codes "archive/" ++ path

-- The parts behind `archive`, where there are any.
unfoldable pub origin_of_parts : List Text → Result Text
unfolding join_on as_posix
origin_of_parts [] = raise Kind.unknown_folder
origin_of_parts (first ∷ []) = raise Kind.unknown_folder
origin_of_parts (first ∷ second ∷ parts) =
    if text_eq first (codes "archive")
    then ok (as_posix (join_on slash (second ∷ parts)))
    else raise Kind.unknown_folder

unfoldable pub origin_path_for : Text → Result Text
unfolding origin_of_parts parts_of
origin_path_for archived_path = origin_of_parts (parts_of archived_path)
