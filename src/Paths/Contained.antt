-- ===== src/Paths/Contained.antt =====
-- What core/paths.py asks of a path that it resolves.
use ferumind.Common.{
  ◌≤◌, ◌≡◌, refl, ◌≢◌, ◌⊎◌, inl, inr, true, false, ◌||◌, List, [], ◌∷◌, ◌++◌, arith, Bool-cases, ok,
  filter,
}
use ferumind.Text.{Text}
use ferumind.Text.Chars.{codes, is_empty, text_eq, text_eq_iff, utf8_length}
use ferumind.Text.Split.{split_on}
use ferumind.Paths.{
  slash, root_of, is_component, components, parts_of, as_posix, Location, Filesystem,
  max_relative_path_bytes, max_path_component_bytes, any_char, is_control, any_long, is_under_root,
  walk, contained_path,
}

-- Each part is a name, not `..`, no longer than a file system takes, and no symlink where it stands.
abbrev pub AreSafe : Filesystem → Location → List Text → Type 0
AreSafe filesystem current [] = Unit
AreSafe filesystem current (part ∷ parts) =
    (is_component part ≡ true)
    × (part ≢ codes "..")
    × (utf8_length part ≤ max_path_component_bytes)
    × (filesystem.is_symlink (current ++ (part ∷ [])) ≡ false)
    × AreSafe filesystem (current ++ (part ∷ [])) parts

AreComponents : List Text → Type 0
AreComponents [] = Unit
AreComponents (part ∷ parts) = (is_component part ≡ true) × AreComponents parts

filter-AreComponents : (parts : List Text) → AreComponents (filter is_component parts)
unfolding AreComponents
filter-AreComponents [] = tt
filter-AreComponents (part ∷ parts) = elim (Bool-cases (is_component part)) [
  | inl e ↦ rw e (e, filter-AreComponents parts)
  | inr e ↦ rw e (filter-AreComponents parts)
]

walk-AreSafe :
    (filesystem : Filesystem) (root current : Location) (parts : List Text)
    → AreComponents parts
    → any_long parts ≡ false
    → walk filesystem root current parts ≡ ok tt
    → AreSafe filesystem current parts
unfolding walk AreComponents any_long
walk-AreSafe filesystem root current [] c l h = tt
walk-AreSafe filesystem root current (part ∷ parts) (p, c) l h = (
  p,
  (let e = text_eq_iff part (codes "..") in ground (arith, h, p)),
  ground (arith, l),
  ground (arith, h, p),
  walk-AreSafe filesystem root (current ++ (part ∷ [])) parts c (ground (arith, l))
      (ground (arith, h, p)),
)

-- What is known of a path that is resolved below a root.
pub record IsContained (filesystem : Filesystem) (root : Location) (path : Text) (target : Location)
    : Type 0 where
  pub below : is_under_root filesystem target (filesystem.resolve root) ≡ true
  pub resolved : target ≡ filesystem.resolve (filesystem.resolve root ++ components path)
  pub safe : AreSafe filesystem (filesystem.resolve root) (components path)
  pub relative : root_of path ≡ []
  pub canonical : (path ≡ codes ".") ⊎ (as_posix path ≡ path)
  pub short : utf8_length path ≤ max_relative_path_bytes
  pub printable : any_char is_control path ≡ false

is_empty→nil : (t : Text) → is_empty t ≡ true → t ≡ []
is_empty→nil [] h = refl
is_empty→nil (c ∷ t) h = cc

-- The guards of contained_path, in front of the walk and behind it.
contained_path-ok :
    (filesystem : Filesystem) (root : Location) (path : Text) (target : Location)
    → contained_path filesystem root path ≡ ok target
    → (is_empty (root_of path) ≡ true)
      × ((text_eq path (codes ".") || text_eq (as_posix path) path) ≡ true)
      × (utf8_length path ≤ max_relative_path_bytes)
      × (any_char is_control path ≡ false)
      × (any_long (parts_of path) ≡ false)
      × (walk filesystem (filesystem.resolve root) (filesystem.resolve root) (parts_of path)
          ≡ ok tt)
      × (is_under_root filesystem target (filesystem.resolve root) ≡ true)
      × (target ≡ filesystem.resolve (filesystem.resolve root ++ parts_of path))
unfolding contained_path
contained_path-ok filesystem root path target h = (
  ground (arith, h),
  ground (arith, h),
  ground (arith, h),
  ground (arith, h),
  ground (arith, h),
  ground (arith, h),
  ground (arith, h),
  ground (arith, h),
)

parts_of_relative : (path : Text) → is_empty (root_of path) ≡ true → parts_of path ≡ components path
unfolding parts_of
parts_of_relative path e = rw e refl

-- A path that is resolved below a root is relative, canonical, short enough and without control
-- characters; none of its parts is `..`, too long, or a symlink where it stands; and the location
-- is that of the parts below the root, and under the root.
pub contained_path-IsContained :
    (filesystem : Filesystem) (root : Location) (path : Text) (target : Location)
    → contained_path filesystem root path ≡ ok target
    → IsContained filesystem root path target
unfolding components
contained_path-IsContained filesystem root path target h =
    let (relative, canonical, short, printable, long, walked, below, resolved) =
      contained_path-ok filesystem root path target h in
    let same = parts_of_relative path relative in
    record {
      below = below;
      resolved = rw same at resolved;
      safe =
          walk-AreSafe filesystem (filesystem.resolve root) (filesystem.resolve root)
            (components path) (filter-AreComponents (split_on slash path)) (rw same at long)
            (rw same at walked);
      relative = is_empty→nil (root_of path) relative;
      canonical = elim (Bool-cases (text_eq path (codes "."))) [
        | inl e ↦ inl ((text_eq_iff path (codes ".")).0 e)
        | inr e ↦ inr ((text_eq_iff (as_posix path) path).0 (ground (arith, canonical, e)))
      ];
      short = short;
      printable = printable;
    }
