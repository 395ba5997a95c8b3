-- ===== src/Patches/Metadata/Protected.antt =====
-- What a patch of frontmatter writes, and which keys it protects.
use ferumind.Common.{◌≡◌, true, false, some, List, ◌++◌, ok}
use ferumind.Text.{Text}
use ferumind.Text.Chars.{is_empty}
use ferumind.Runtime.{Runtime}
use ferumind.Runtime.Json.{JsonObject, lookup, contains}
use ferumind.Frontmatter.{protected_frontmatter_keys, extract_frontmatter_block}
use ferumind.Patches.{PreparedPatch, finalize}
use ferumind.Patches.Metadata.{render_document}
use ferumind.Patches.Metadata.Keys.{patched_value}

-- What a patch of frontmatter that is prepared does: the frontmatter block of the document is written again from the old
-- mapping with the keys set and removed, the body is kept, and protected keys keep their values.
pub record IsFrontmatterPatch (rt : Runtime) (content : Text) (old set_values : JsonObject)
    (removed : List Text) (p : PreparedPatch) : Type 0 where
  pub block : Text
  pub body : Text
  pub splits : extract_frontmatter_block content ≡ ok (block, body)
  pub present : is_empty block ≡ false
  pub whole : block ++ body ≡ content
  pub new : JsonObject
  pub values : (key : Text) → lookup key new ≡ patched_value key old set_values removed
  pub protected :
      (key : Text)
      → contains protected_frontmatter_keys key ≡ true
      → lookup key new ≡ lookup key old
  pub finalized : finalize rt content (render_document rt new body) ≡ ok p.new_full_content
  pub guard : p.target_before_sha256 ≡ some (rt.sha256 block)
