-- ===== src/Proposals/Verify.antt =====
-- core/patch_writes.py: _verify_target_hash_for_apply.
use ferumind.Common.{
  Bool, false, not, ◌||◌, Option, none, some, List, if◌then◌else◌, ℤ, pos, int_lt, to_nat, Kind,
  Result, ok, ◌>>◌, raise_if, length,
}
use ferumind.Text.{Text}
use ferumind.Text.Chars.{codes, text_eq}
use ferumind.Text.Lines.{split_lines}
use ferumind.Runtime.{Runtime}
use ferumind.Runtime.Json.{JsonObject, Value, boolean, integer, str, object, lookup}
use ferumind.Operations.Fetch.{entries}
use ferumind.DocumentMap.{hash_line_range}

-- isinstance(value, int): a bool is one.
abbrev pub int_of : Option Value → Option ℤ
int_of none = none
int_of (some value) = elim value [
  | integer n ↦ some n
  | boolean b ↦ some (pos (if b then 1 else 0))
  | _ ↦ none
]

-- isinstance(value, str)
abbrev pub text_of : Option Value → Option Text
text_of none = none
text_of (some value) = elim value [ str t ↦ some t | _ ↦ none ]

-- isinstance(value, dict)
abbrev pub dict_of : Option Value → Option JsonObject
dict_of none = none
dict_of (some value) = elim value [ object fields ↦ some (entries fields) | _ ↦ none ]

-- kind in ("range", "section")
abbrev pub is_line_target : Option Text → Bool
is_line_target none = false
is_line_target (some kind) = text_eq kind (codes "range") || text_eq kind (codes "section")

module _ (rt : Runtime) where
  -- The lines of the stored range still have the expected hash.
  unfoldable pub verify_lines : List Text → ℤ → ℤ → Text → Result (Unit {0})
  unfolding hash_line_range text_eq
  verify_lines lines start_line end_line expected = do
    raise_if
        (int_lt start_line (pos 1)
          || (int_lt (pos (length lines)) end_line || int_lt end_line start_line))
        Kind.target_hash_mismatch
    raise_if
        (not (text_eq (hash_line_range rt lines (to_nat start_line) (to_nat end_line)) expected))
        Kind.target_hash_mismatch

  -- The bounds of a target of lines; without both there is nothing to check.
  abbrev pub verify_bounds : List Text → Option ℤ → Option ℤ → Text → Result (Unit {0})
  verify_bounds lines none end_line expected = ok tt
  verify_bounds lines (some start_line) none expected = ok tt
  verify_bounds lines (some start_line) (some end_line) expected =
      verify_lines lines start_line end_line expected

  abbrev pub verify_target : Option JsonObject → Option Text → Text → Result (Unit {0})
  verify_target none expected content = ok tt
  verify_target (some target) none content = ok tt
  verify_target (some target) (some expected) content =
      if is_line_target (text_of (lookup (codes "kind") target))
      then verify_bounds (split_lines content) (int_of (lookup (codes "start_line") target))
          (int_of (lookup (codes "end_line") target)) expected
      else ok tt

  unfoldable pub verify_target_hash_for_apply : JsonObject → Text → Result (Unit {0})
  unfolding verify_lines lookup split_lines text_eq
  verify_target_hash_for_apply request_json current_content =
      verify_target (dict_of (lookup (codes "target") request_json))
        (text_of (lookup (codes "target_before_sha256") request_json)) current_content
