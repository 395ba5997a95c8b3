-- ===== src/Patches/Metadata.antt =====
-- core/patches.py: patches of single frontmatter keys.
pub mod Protected
pub mod Keys
use ferumind.Common.{
  Bool, true, false, not, ◌&&◌, ◌||◌, none, some, List, [], ◌∷◌, ◌++◌, ltb, ◌==◌, if◌then◌else◌,
  Kind, Result, ok, ◌>>=◌, ◌>>◌, raise, raise_if, translate,
}
use ferumind.Text.{Text}
use ferumind.Text.Chars.{codes, is_empty}
use ferumind.Text.Lines.{newline}
use ferumind.Runtime.{Runtime}
use ferumind.Runtime.Json.{Value, str, JsonObject, lookup, contains, has_key, update, erase}
use ferumind.Frontmatter.{protected_frontmatter_keys, validate_status, validate_edit_policy}
use ferumind.Frontmatter.{validate_description, extract_frontmatter_block, parse_frontmatter}
use ferumind.Frontmatter.{is_managed_markdown}
use ferumind.Frontmatter.Match.{dashes}
use ferumind.Patches.{PreparedPatch, ProposalKind, Target, finalize}

abbrev pub keys : JsonObject → List Text
keys [] = []
keys ((k, v) ∷ d) = k ∷ keys d

-- An element of the first list stands in the second.
unfoldable pub any_in : List Text → List Text → Bool
any_in [] ys = false
any_in (x ∷ xs) ys = contains ys x || any_in xs ys

-- _validate_frontmatter_patch_keys
unfoldable pub validate_frontmatter_patch_keys : JsonObject → List Text → Result (Unit {0})
validate_frontmatter_patch_keys set_values remove_keys = do
  raise_if (is_empty set_values && is_empty remove_keys) Kind.validation
  raise_if (any_in (keys set_values) remove_keys) Kind.validation
  raise_if (any_in (keys set_values ++ remove_keys) protected_frontmatter_keys)
      Kind.frontmatter_protected

-- validate(str(value)): the `str` of a value that is no string is in neither list of allowed words.
abbrev check_word : (Text → Result Text) → Value → Result (Unit {0})
check_word validate (str t) = translate Kind.validation (validate t)
check_word validate _ = raise Kind.validation

-- The check of one key, where it is set.
abbrev check_key : JsonObject → Text → (Value → Result (Unit {0})) → Result (Unit {0})
check_key set_values key check = elim (lookup key set_values) [ none ↦ ok tt | some v ↦ check v ]

-- _validate_frontmatter_behavior_values
unfoldable pub validate_frontmatter_behavior_values : JsonObject → Result (Unit {0})
validate_frontmatter_behavior_values set_values = do
  check_key set_values (codes "status") (check_word validate_status)
  check_key set_values (codes "edit_policy") (check_word validate_edit_policy)

-- _validate_frontmatter_description_change
unfoldable pub validate_frontmatter_description_change :
    Runtime → Text → JsonObject → List Text → Result (Unit {0})
validate_frontmatter_description_change rt content set_values remove_keys = do
  check_key set_values (codes "description")
      (λ v. translate Kind.validation (validate_description v))
  managed ←
      if contains remove_keys (codes "description")
      then is_managed_markdown rt content
      else ok false
  raise_if managed Kind.validation

-- `key not in frontmatter` for one of the keys
unfoldable pub any_missing : JsonObject → List Text → Bool
any_missing frontmatter [] = false
any_missing frontmatter (k ∷ ks) = not (has_key k frontmatter) || any_missing frontmatter ks

-- for key in remove_keys: del new_frontmatter[key]
unfoldable pub delete_keys : JsonObject → List Text → Result JsonObject
delete_keys d [] = ok d
delete_keys d (k ∷ ks) = do raise_if (not (has_key k d)) Kind.key_error; delete_keys (erase k d) ks

-- _remove_frontmatter_keys
unfoldable pub remove_frontmatter_keys : JsonObject → JsonObject → List Text → Result JsonObject
remove_frontmatter_keys frontmatter set_values remove_keys = do
  raise_if (any_missing frontmatter remove_keys) Kind.validation
  delete_keys (update frontmatter set_values) remove_keys

-- a <= b, by code points
text_leb : Text → Text → Bool
text_leb [] bs = true
text_leb (a ∷ rest) [] = false
text_leb (a ∷ rest) (b ∷ bs) = ltb a b || ((a == b) && text_leb rest bs)

insert_key : Text → List Text → List Text
insert_key k [] = k ∷ []
insert_key k (j ∷ js) = if text_leb k j then k ∷ j ∷ js else j ∷ insert_key k js

-- sorted(keys)
unfoldable pub sort_keys : List Text → List Text
unfolding insert_key text_leb
sort_keys [] = []
sort_keys (k ∷ ks) = insert_key k (sort_keys ks)

-- f"---\n{dumped}---\n{body}"
unfoldable pub render_document : Runtime → JsonObject → Text → Text
render_document rt frontmatter body =
    dashes ++ (newline ∷ (rt.dump_yaml frontmatter ++ (dashes ++ newline ∷ body)))

unfoldable pub prepare_frontmatter_patch :
    Runtime → Text → JsonObject → List Text → Result PreparedPatch
prepare_frontmatter_patch rt content set_values remove_keys = do
  validate_frontmatter_patch_keys set_values remove_keys
  split ← extract_frontmatter_block content
  raise_if (is_empty split.0) Kind.frontmatter_required
  frontmatter ← parse_frontmatter rt content
  validate_frontmatter_behavior_values set_values
  validate_frontmatter_description_change rt content set_values remove_keys
  new_frontmatter ← remove_frontmatter_keys frontmatter set_values remove_keys
  finalized ← finalize rt content (render_document rt new_frontmatter split.1)
  ok (record {
    proposal_kind = ProposalKind.frontmatter;
    new_full_content = finalized;
    target_before_sha256 = some (rt.sha256 split.0);
    target =
        Target.frontmatter_target set_values (sort_keys (keys set_values)) (sort_keys remove_keys);
  })
