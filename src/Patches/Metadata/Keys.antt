-- ===== src/Patches/Metadata/Keys.antt =====
-- Which keys a patch of frontmatter changes.
use ferumind.Common.{
  ◌≡◌, refl, subst, not, Option, none, some, List, [], ◌∷◌, arith, if◌then◌else◌, Kind, ok,
  raise_if, >>=-eq-ok,
}
use ferumind.Text.{Text}
use ferumind.Text.Chars.{text_eq_iff}
use ferumind.Runtime.Json.{
  Value, JsonObject, lookup, insert, erase, update, contains, has_key, lookup-insert, NodupKeys,
  lookup-erase_self, lookup-erase_ne, insert-NodupKeys, erase-NodupKeys,
}
use ferumind.Patches.Metadata.{any_missing, delete_keys, remove_frontmatter_keys}

-- The value of a key once a mapping is updated by another one.
abbrev pub updated_value : Text → JsonObject → JsonObject → Option Value
updated_value key d e = elim (lookup key e) [ none ↦ lookup key d | some v ↦ some v ]

-- The same, once some keys are removed.
abbrev pub patched_value : Text → JsonObject → JsonObject → List Text → Option Value
patched_value key d e removed = if contains removed key then none else updated_value key d e

lookup-update :
    (key : Text) (d e : JsonObject) → NodupKeys e → lookup key (update d e) ≡ updated_value key d e
unfolding update lookup
lookup-update key d [] n = refl
lookup-update key d ((k, v) ∷ e) (fresh, n) =
    ground (arith, lookup-update key (insert k v d) e n, lookup-insert key k v d, text_eq_iff k key)

update-NodupKeys : (d e : JsonObject) → NodupKeys d → NodupKeys (update d e)
unfolding update
update-NodupKeys d [] n = n
update-NodupKeys d ((k, v) ∷ e) n = update-NodupKeys (insert k v d) e (insert-NodupKeys k v d n)

lookup-delete_keys :
    (key : Text) (d : JsonObject) (ks : List Text) {new : JsonObject}
    → NodupKeys d
    → delete_keys d ks ≡ ok new
    → lookup key new ≡ (if contains ks key then none else lookup key d)
unfolding delete_keys contains
lookup-delete_keys key d [] n h = cc
lookup-delete_keys key d (k ∷ ks) {new} n h =
    let (_, _, h₁) = >>=-eq-ok (raise_if (not (has_key k d)) Kind.key_error) _ h in
    let later = lookup-delete_keys key (erase k d) ks (erase-NodupKeys k d n) h₁ in
    ground (arith, later, lookup-erase_self k d n, lookup-erase_ne key k d, text_eq_iff k key)

-- Setting and removing keys of a mapping gives each key the value that is set, or none where it is
-- removed, or else the value it had.
pub remove_frontmatter_keys_lem :
    (frontmatter set_values : JsonObject) (removed : List Text) (key : Text) {new : JsonObject}
    → NodupKeys frontmatter
    → NodupKeys set_values
    → remove_frontmatter_keys frontmatter set_values removed ≡ ok new
    → lookup key new ≡ patched_value key frontmatter set_values removed
unfolding remove_frontmatter_keys
remove_frontmatter_keys_lem frontmatter set_values removed key {new} n m h =
    let (_, _, k) = >>=-eq-ok (raise_if (any_missing frontmatter removed) Kind.validation) _ h in
    subst (λ o. lookup key new ≡ (if contains removed key then none else o))
      (lookup-update key frontmatter set_values m)
      (lookup-delete_keys key (update frontmatter set_values) removed
        (update-NodupKeys frontmatter set_values n) k)
