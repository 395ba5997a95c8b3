-- ===== src/Patches/Finalize.antt =====
-- What `_finalize` promises of every patch.
use ferumind.Common.{◌≡◌, Bool, true, false, ◌++◌, ok}
use ferumind.Text.{Text}
use ferumind.Frontmatter.Updated.{IsUpdated}
use ferumind.Text.Chars.{codes, is_empty}
use ferumind.Runtime.{Runtime}
use ferumind.Frontmatter.{extract_frontmatter_block, set_frontmatter_updated}

-- The text with its frontmatter block stamped, and the rest of it as it is: the block has the line
-- of the present time for its old `updated` line, or else in front of a line of dashes.
pub record IsStamped (rt : Runtime) (text stamped : Text) : Type 0 where
  pub block : Text
  pub body : Text
  pub splits : extract_frontmatter_block text ≡ ok (block, body)
  pub present : is_empty block ≡ false
  pub stamps : stamped ≡ set_frontmatter_updated block rt.now ++ body
  pub updates : IsUpdated (codes "updated: " ++ rt.now) block (set_frontmatter_updated block rt.now)

-- What becomes of a text: a managed document is stamped, another text is kept.
abbrev pub IsRefreshed : Runtime → Text → Bool → Text → Type 0
IsRefreshed rt text true refreshed = IsStamped rt text refreshed
IsRefreshed rt text false refreshed = refreshed ≡ text
