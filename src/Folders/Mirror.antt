-- ===== src/Folders/Mirror.antt =====
-- The mirror of a path below `archive/`, and the folder that it is in.
use ferumind.Common.{
  ◌≡◌, refl, ap, inl, inr, Bool, true, false, List, [], ◌∷◌, arith, Bool-cases, ok,
}
use ferumind.Text.{Text}
use ferumind.Text.Chars.{codes, text_eq, text_eq→eq, is_empty}
use ferumind.Text.Split.{split_on, join_on}
use ferumind.Paths.{slash, root_of, components, parts_of, as_posix}
use ferumind.Folders.{
  Folder, archive, folder_literal, folder_of, folder_of_parts, starts_archived, is_archived_path,
  archive_path_for, origin_of_parts, origin_path_for,
}

-- A relative path in its one spelling, with a name.
pub record IsRelative (path : Text) : Type 0 where
  pub relative : root_of path ≡ []
  pub canonical : as_posix path ≡ path
  pub named : is_empty (components path) ≡ false

archive-parts : (path : Text) → parts_of (archive_path_for path) ≡ codes "archive" ∷ components path
unfolding archive_path_for parts_of components split_on text_eq
archive-parts path = refl

-- A relative path with names is its names.
join_on-components : (path : Text) → IsRelative path → join_on slash (components path) ≡ path
unfolding as_posix
join_on-components path h =
    let r = h.relative in let c = h.canonical in let n = h.named in ground (arith, r, c, n)

origin-archive_parts :
    (parts : List Text)
    → is_empty parts ≡ false
    → origin_of_parts (codes "archive" ∷ parts) ≡ ok (as_posix (join_on slash parts))
unfolding origin_of_parts text_eq
origin-archive_parts [] h = cc
origin-archive_parts (part ∷ parts) h = refl

-- A relative path in its one spelling, with a name, is the origin of its mirror below the archive.
pub origin_path_for-archive_path_for :
    (path : Text) → IsRelative path → origin_path_for (archive_path_for path) ≡ ok path
unfolding origin_path_for
origin_path_for-archive_path_for path h =
    rw
      (
        archive-parts path,
        origin-archive_parts (components path) h.named,
        join_on-components path h,
      )
      (ap ok h.canonical)

folder_of_archive_parts :
    (parts : List Text)
    → is_empty parts ≡ false
    → folder_of_parts (codes "archive" ∷ parts) ≡ ok archive
unfolding folder_of_parts folder_literal text_eq
folder_of_archive_parts [] h = cc
folder_of_archive_parts (part ∷ parts) h = refl

-- A mirror is in the folder `archive`.
pub folder_of-archive_path_for :
    (path : Text) → IsRelative path → folder_of (archive_path_for path) ≡ ok archive
unfolding folder_of
folder_of-archive_path_for path h =
    rw (archive-parts path) (folder_of_archive_parts (components path) h.named)

-- folder == "archive"
abbrev pub is_archive : Folder → Bool
is_archive archive = true
is_archive _ = false

-- A name that is another one is not `archive`.
other_name :
    (name other : Text)
    → text_eq other (codes "archive") ≡ false
    → text_eq name other ≡ true
    → text_eq name (codes "archive") ≡ false
other_name name other h e = let q = text_eq→eq name other e in rw q h

starts_archived-is_archive :
    (parts : List Text) (folder : Folder)
    → folder_of_parts parts ≡ ok folder
    → starts_archived parts ≡ is_archive folder
unfolding folder_of_parts folder_literal text_eq
starts_archived-is_archive [] folder h = cc
starts_archived-is_archive (name ∷ []) folder h =
    elim (Bool-cases (text_eq name (codes "spine.md"))) [
      | inl e ↦ let n = other_name name (codes "spine.md") refl e in ground (arith, h, e, n)
      | inr e ↦ ground (arith, h, e)
    ]
starts_archived-is_archive (first ∷ second ∷ parts) folder h = ground (
  arith,
  h,
  other_name first (codes "rules") refl,
  other_name first (codes "canvases") refl,
  other_name first (codes "memory") refl,
  other_name first (codes "library") refl,
  other_name first (codes "inbox") refl,
)

-- Where a path has a folder, it is an archived path exactly where the folder is the archive.
pub is_archived_path-folder_of :
    (path : Text) (folder : Folder)
    → folder_of path ≡ ok folder
    → is_archived_path path ≡ is_archive folder
unfolding is_archived_path folder_of
is_archived_path-folder_of path folder h = starts_archived-is_archive (parts_of path) folder h
