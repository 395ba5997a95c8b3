-- ===== src/Frontmatter/Generate.antt =====
-- core/frontmatter.py: `generate_frontmatter`.
use ferumind.Common.{Option, none, some, [], ◌∷◌, ◌++◌, Result, ok, ◌>>=◌, ◌>>◌}
use ferumind.Text.{Text}
use ferumind.Text.Chars.{codes}
use ferumind.Text.Lines.{newline}
use ferumind.Runtime.{Runtime}
use ferumind.Runtime.Json.{str, JsonObject}
use ferumind.Frontmatter.{validate_status, validate_edit_policy, validate_description_text}
use ferumind.Frontmatter.Match.{dashes}

pub record FrontmatterBehavior : Type 0 where
  pub status : Text
  pub edit_policy : Option Text

-- The entry of the policy, where there is one.
abbrev policy_entry : Option Text → JsonObject
policy_entry none = []
policy_entry (some policy) = (codes "edit_policy", str policy) ∷ []

-- The mapping that is dumped.
unfoldable pub payload : Runtime → Text → Text → Text → Text → FrontmatterBehavior → JsonObject
payload rt doc_id project_key title description behavior =
    (codes "id", str doc_id)
      ∷ (codes "type", str (codes "document"))
      ∷ (codes "project", str project_key)
      ∷ (codes "title", str title)
      ∷ (codes "description", str description)
      ∷ (codes "status", str behavior.status)
      ∷ policy_entry behavior.edit_policy
    ++ ((codes "created", str rt.now) ∷ (codes "updated", str rt.now) ∷ [])

unfoldable pub generate_frontmatter :
    Runtime → Text → Text → Text → Text → FrontmatterBehavior → Result Text
generate_frontmatter rt doc_id project_key title description behavior = do
  validate_status behavior.status
  elim behavior.edit_policy [ none ↦ ok [] | some policy ↦ validate_edit_policy policy ]
  described ← validate_description_text description
  let dumped = rt.dump_yaml (payload rt doc_id project_key title described behavior)
  ok (dashes ++ (newline ∷ (dumped ++ (dashes ++ newline ∷ []))))
