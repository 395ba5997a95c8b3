-- ===== src/Documents.antt =====
-- core/documents.py: the identity and the description of a managed document.
pub mod Identity
pub mod Parse
pub mod Policies
pub mod Laws
use ferumind.Common.{
  ℕ, zero, suc, ◌+◌, ◌-◌, ◌*◌, ◌/◌, ◌%◌, ◌≤◌, ◌<◌, min, max, ◌≡◌, refl, sym, ap, ap₂, ◌∙◌, subst,
  ◌≡⟨◌⟩◌, ◌∎, ◌≢◌, ◌↔◌, ◌⊎◌, inl, inr, Bool, true, false, not, ◌&&◌, ◌||◌, Option, none, some, List,
  [], ◌∷◌, ◌++◌, map, append-nil, append_assoc, arith, ltb, leb, ◌==◌, if◌then◌else◌, ==_iff,
  ==_refl, leb→le, ltb→lt, Bool-cases, Option-cases, if_elim, is_none, ℤ, pos, negsuc, int_lt,
  to_nat, Kind, Error, Result, ok, err, ◌>>=◌, ◌>>◌, raise, raise_if, raise_at, raise_at_if,
  translate, >>=-eq-ok, length, get_elem?, get_or, set, take, drop, length-append, take-append-drop,
  length-take, length-drop, take-append_length, drop-append_length, drop-nil, take-nil, take_all,
  drop_all, drop-suc-drop, take_of_append, drop_of_append, drop-drop, take-append-lt,
  drop-append-lt, filter, get_last?, run_length, run_length-le, filter-append,
}
use ferumind.Text.{Text}
use ferumind.Text.Chars.{codes, text_eq}
use ferumind.Runtime.Json.{Value, null, str, JsonObject, lookup}
use ferumind.Frontmatter.{has_text, validate_description}

-- frontmatter.get(key) is None
unfoldable pub is_unset : JsonObject → Text → Bool
is_unset frontmatter key = elim (lookup key frontmatter) [
  | none ↦ true
  | some v ↦ elim v [ null ↦ true | _ ↦ false ]
]

-- _frontmatter_str
unfoldable pub frontmatter_str : JsonObject → Text → Text → Text
frontmatter_str frontmatter key default = elim (lookup key frontmatter) [
  | none ↦ default
  | some v ↦ elim v [ str t ↦ t | _ ↦ default ]
]

-- _validate_identity: whether the document is managed
unfoldable pub validate_identity : JsonObject → Text → Result Bool
validate_identity frontmatter project_key =
    if is_unset frontmatter (codes "id")
      && (is_unset frontmatter (codes "type") && is_unset frontmatter (codes "project"))
    then ok false
    else do
      raise_if (not (has_text frontmatter (codes "id"))) Kind.frontmatter_invalid
      raise_if (not (has_text frontmatter (codes "type"))) Kind.frontmatter_invalid
      raise_if (not (has_text frontmatter (codes "project"))) Kind.frontmatter_invalid
      raise_if (not (text_eq (frontmatter_str frontmatter (codes "type") []) (codes "document")))
          Kind.frontmatter_invalid
      raise_if (not (text_eq (frontmatter_str frontmatter (codes "project") []) project_key))
          Kind.frontmatter_invalid
      ok true

-- _document_description: a missing description is checked as `None`
unfoldable pub document_description : JsonObject → Bool → Result Text
document_description frontmatter managed =
    if managed
    then elim (lookup (codes "description") frontmatter) [
      | none ↦ validate_description null
      | some v ↦ validate_description v
    ]
    else ok []
