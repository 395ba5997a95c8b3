-- ===== src/Tests/Identities.antt =====
-- A run of `_validate_identity`.
use ferumind.Common.{refl, true, [], ◌∷◌}
use ferumind.Text.Chars.{codes}
use ferumind.Runtime.Json.{JsonObject, str}
use ferumind.Documents
use ferumind.Documents.Identity.{IsIdentity, validate_identity-IsIdentity}
use ferumind.Tests.Sample.{running}

abbrev managed_note : JsonObject
managed_note =
    (codes "id", str (codes "doc_1"))
    ∷ (codes "type", str (codes "document"))
    ∷ (codes "project", str (codes "p"))
    ∷ []

validate_identity_example : IsIdentity managed_note (codes "p") true
unfolding running Documents.is_unset Documents.frontmatter_str Documents.validate_identity
validate_identity_example = validate_identity-IsIdentity managed_note (codes "p") true refl
