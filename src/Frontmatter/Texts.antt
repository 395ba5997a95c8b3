-- ===== src/Frontmatter/Texts.antt =====
-- The values of the keys of a frontmatter mapping, as `_has_text` and `fm.get` read them.
use ferumind.Common.{◌≡◌, ◌⊎◌, inl, inr, true, false, none, some, arith, Option-cases}
use ferumind.Text.{Text}
use ferumind.Text.Chars.{strip, is_empty}
use ferumind.Runtime.Json.{Value, null, boolean, integer, float, str, array, object, other}
use ferumind.Runtime.Json.{JsonObject, lookup}
use ferumind.Frontmatter.{has_text}

-- The key has this text, which is not blank.
abbrev pub HasText : JsonObject → Text → Text → Type 0
HasText fm key text = (lookup key fm ≡ some (str text)) × (is_empty (strip text) ≡ false)

-- The key is missing, or has no value.
abbrev pub HasNoValue : JsonObject → Text → Type 0
HasNoValue fm key = (lookup key fm ≡ none) ⊎ (lookup key fm ≡ some null)

has_text_of :
    (fm : JsonObject) (key : Text) (v : Value)
    → has_text fm key ≡ true
    → lookup key fm ≡ some v
    → (text : Text) × HasText fm key text
unfolding has_text
has_text_of fm key null h e = absurd (ground (arith, e))
has_text_of fm key (boolean b) h e = absurd (ground (arith, e))
has_text_of fm key (integer n) h e = absurd (ground (arith, e))
has_text_of fm key (float r) h e = absurd (ground (arith, e))
has_text_of fm key (str t) h e = (t, (e, ground (arith, e)))
has_text_of fm key (array vs) h e = absurd (ground (arith, e))
has_text_of fm key (object fs) h e = absurd (ground (arith, e))
has_text_of fm key (other t) h e = absurd (ground (arith, e))

-- A key that is taken to have a text has one.
pub has_text-HasText :
    (fm : JsonObject) (key : Text) → has_text fm key ≡ true → (text : Text) × HasText fm key text
has_text-HasText fm key h = elim (Option-cases (lookup key fm)) [
  | inl e ↦ absurd (unfold has_text in ground (arith, e))
  | inr (v, e) ↦ has_text_of fm key v h e
]
