-- ===== src/FileUri.antt =====
-- core/file_uri.py: the URIs of project files, with UTF-8 and base64 written out.
pub mod Codec
pub mod Utf8
pub mod Laws
use ferumind.Common.{
  ℕ, zero, suc, ◌+◌, ◌-◌, ◌*◌, ◌/◌, ◌%◌, ◌≤◌, ◌<◌, min, max, ◌≡◌, refl, sym, ap, ap₂, ◌∙◌, subst,
  ◌≡⟨◌⟩◌, ◌∎, ◌≢◌, ◌↔◌, ◌⊎◌, inl, inr, Bool, true, false, not, ◌&&◌, ◌||◌, Option, none, some, List,
  [], ◌∷◌, ◌++◌, map, append-nil, append_assoc, arith, ltb, leb, ◌==◌, if◌then◌else◌, ==_iff,
  ==_refl, leb→le, ltb→lt, Bool-cases, Option-cases, ok_injective, Result-cases, if_elim, is_none,
  ℤ, pos, negsuc, int_lt, to_nat, Kind, Error, Result, ok, err, ◌>>=◌, ◌>>◌, raise, raise_if,
  raise_at, raise_at_if, translate, >>=-eq-ok, length, get_elem?, get_or, set, take, drop,
  length-append, take-append-drop, length-take, length-drop, take-append_length, drop-append_length,
  drop-nil, take-nil, take_all, drop_all, drop-suc-drop, take_of_append, drop_of_append, drop-drop,
  take-append-lt, drop-append-lt, filter, get_last?, run_length, run_length-le, filter-append,
}
use ferumind.Text.{Text}
use ferumind.Text.Chars.{codes, is_empty, text_eq, starts_with}
use ferumind.Text.Split.{split_on}
use ferumind.FileUri.Codec.{encode_utf8, decode_utf8, encode_base64, decode_base64, is_base64_char}

abbrev pub file_uri_prefix : Text
file_uri_prefix = codes "ferumind://file/"

abbrev pub max_encoded_path_chars : ℕ
max_encoded_path_chars = 6000

pub record ParsedFileUri : Type 0 where
  pub project_key : Text
  pub path : Text

-- all(...)
unfoldable pub all_of : (ℕ → Bool) → Text → Bool
all_of p [] = true
all_of p (c ∷ cs) = p c && all_of p cs

abbrev pub is_lower : ℕ → Bool
is_lower c = leb b'a' c && leb c b'z'

-- [a-z0-9-]
abbrev pub is_key_char : ℕ → Bool
is_key_char c = is_lower c || ((leb b'0' c && leb c b'9') || c == b'-')

-- _PROJECT_KEY_RE.fullmatch(key)
unfoldable pub is_project_key : Text → Bool
unfolding all_of
is_project_key [] = false
is_project_key (c ∷ cs) = is_lower c && all_of is_key_char cs

-- _BASE64URL_RE.fullmatch(encoded)
unfoldable pub is_base64url : Text → Bool
unfolding all_of is_base64_char
is_base64url encoded = not (is_empty encoded) && all_of is_base64_char encoded

unfoldable pub encode_relative_path : Text → Text
unfolding encode_utf8 encode_base64
encode_relative_path path = encode_base64 (encode_utf8 path)

-- `except ...: raise ValidationError`, around a decoder
abbrev pub or_invalid : Option Text → Result Text
or_invalid none = raise Kind.validation
or_invalid (some text) = ok text

unfoldable pub decode_relative_path : Text → Result Text
unfolding is_base64url decode_base64 decode_utf8 encode_relative_path
decode_relative_path encoded = do
  raise_if (is_empty encoded || ltb max_encoded_path_chars (length encoded)) Kind.validation
  raise_if (not (is_base64url encoded)) Kind.validation
  raw ← or_invalid (decode_base64 encoded)
  path ← or_invalid (decode_utf8 raw)
  raise_if (is_empty path) Kind.validation
  raise_if (not (text_eq (encode_relative_path path) encoded)) Kind.validation
  ok path

unfoldable pub build_file_uri : Text → Text → Text
unfolding encode_relative_path
build_file_uri project_key path =
    file_uri_prefix ++ (project_key ++ b'/' ∷ encode_relative_path path)

-- project_key, encoded = segments
unfoldable pub parse_segments : List Text → Result ParsedFileUri
unfolding is_project_key decode_relative_path
parse_segments (project_key ∷ encoded ∷ []) = do
  raise_if (not (is_project_key project_key)) Kind.validation
  path ← decode_relative_path encoded
  ok (record { project_key = project_key; path = path })
parse_segments _ = raise Kind.validation

unfoldable pub parse_file_uri : Text → Result ParsedFileUri
unfolding parse_segments split_on
parse_file_uri uri =
    raise_if (not (starts_with uri file_uri_prefix)) Kind.validation
    >> parse_segments (split_on b'/' (drop (length file_uri_prefix) uri))
