-- ===== src/Documents/Identity.antt =====
-- When core/documents.py takes a document for a managed one.
use ferumind.Common.{◌≡◌, subst, inl, inr, Bool, true, false, some, [], arith, Option-cases, ok}
use ferumind.Text.{Text}
use ferumind.Text.Chars.{codes, text_eq_iff}
use ferumind.Runtime.Json.{Value, null, boolean, integer, float, str, array, object, other}
use ferumind.Runtime.Json.{JsonObject, lookup}
use ferumind.Frontmatter.{has_text}
use ferumind.Frontmatter.Texts.{HasText, HasNoValue, has_text-HasText}
use ferumind.Documents.{is_unset, frontmatter_str, validate_identity}

-- The identity of a managed document, and that of no managed document.
abbrev pub IsIdentity : JsonObject → Text → Bool → Type 0
IsIdentity frontmatter project_key true =
    ((id : Text) × HasText frontmatter (codes "id") id)
    × HasText frontmatter (codes "type") (codes "document")
    × HasText frontmatter (codes "project") project_key
IsIdentity frontmatter project_key false =
    HasNoValue frontmatter (codes "id")
    × HasNoValue frontmatter (codes "type")
    × HasNoValue frontmatter (codes "project")

-- A key with a text is read as that text.
pub HasText-frontmatter_str :
    (fm : JsonObject) (key expected : Text)
    → has_text fm key ≡ true
    → frontmatter_str fm key [] ≡ expected
    → HasText fm key expected
unfolding frontmatter_str
HasText-frontmatter_str fm key expected h e =
    let (text, (found, filled)) = has_text-HasText fm key h in
    let same : text ≡ expected = ground (arith, found, e) in
    subst (HasText fm key) same (found, filled)

is_unset_of :
    (fm : JsonObject) (key : Text) (v : Value)
    → is_unset fm key ≡ true
    → lookup key fm ≡ some v
    → HasNoValue fm key
unfolding is_unset
is_unset_of fm key null h e = inr e
is_unset_of fm key (boolean b) h e = absurd (ground (arith, e))
is_unset_of fm key (integer n) h e = absurd (ground (arith, e))
is_unset_of fm key (float r) h e = absurd (ground (arith, e))
is_unset_of fm key (str t) h e = absurd (ground (arith, e))
is_unset_of fm key (array vs) h e = absurd (ground (arith, e))
is_unset_of fm key (object fs) h e = absurd (ground (arith, e))
is_unset_of fm key (other t) h e = absurd (ground (arith, e))

is_unset-HasNoValue : (fm : JsonObject) (key : Text) → is_unset fm key ≡ true → HasNoValue fm key
is_unset-HasNoValue fm key h = elim (Option-cases (lookup key fm)) [
  | inl e ↦ inl e
  | inr (v, e) ↦ is_unset_of fm key v h e
]

-- Where the identity of a document is accepted as a managed one, its mapping holds an id that is a
-- text and not blank, the text `document` as type, and the asserted project, which is not blank,
-- as project; where it is accepted as that of no managed document, each of the three keys is
-- missing or null.
pub validate_identity-IsIdentity :
    (frontmatter : JsonObject) (project_key : Text) (managed : Bool)
    → validate_identity frontmatter project_key ≡ ok managed
    → IsIdentity frontmatter project_key managed
unfolding validate_identity
validate_identity-IsIdentity frontmatter project_key true h =
    let kind = text_eq_iff (frontmatter_str frontmatter (codes "type") []) (codes "document") in
    let project = text_eq_iff (frontmatter_str frontmatter (codes "project") []) project_key in
    (
      has_text-HasText frontmatter (codes "id") (ground arith),
      HasText-frontmatter_str frontmatter (codes "type") (codes "document") (ground arith)
          (kind.0 (ground arith)),
      HasText-frontmatter_str frontmatter (codes "project") project_key (ground arith)
          (project.0 (ground arith)),
    )
validate_identity-IsIdentity frontmatter project_key false h = (
  is_unset-HasNoValue frontmatter (codes "id") (ground arith),
  is_unset-HasNoValue frontmatter (codes "type") (ground arith),
  is_unset-HasNoValue frontmatter (codes "project") (ground arith),
)
