-- ===== src/FileUri/Laws.antt =====
-- The URIs of core/file_uri.py and the files that they name.
use ferumind.Common.{
  ℕ, ◌+◌, ◌*◌, ◌/◌, ◌%◌, ◌≤◌, ◌<◌, ◌≡◌, refl, sym, ap, ◌∙◌, subst, inl, inr, Bool, true, false, not,
  ◌||◌, List, [], ◌∷◌, ◌++◌, arith, ltb, ◌==◌, ==_refl, Bool-cases, ok_injective, Kind, ok, ◌>>◌,
  raise_if, >>=-eq-ok, length, drop,
}
use ferumind.Text.{Text}
use ferumind.Text.Chars.{
  is_empty, text_eq, text_eq_iff, text_eq_refl, starts_with, starts_with→append, starts_with-append,
  utf8_length,
}
use ferumind.Text.Split.{split_on, join_on, join_on-split_on}
use ferumind.FileUri.{
  file_uri_prefix, max_encoded_path_chars, ParsedFileUri, all_of, is_key_char, is_project_key,
  is_base64url, encode_relative_path, decode_relative_path, build_file_uri, parse_segments,
  parse_file_uri, or_invalid,
}
use ferumind.FileUri.Codec.{
  encode_utf8, decode_utf8, encode_base64, decode_base64, is_base64_char, sextet_char, AreBytes,
  decode_base64-encode_base64,
}
use ferumind.FileUri.Utf8.{
  AreScalars, encode_utf8-AreBytes, length-encode_utf8, decode_utf8-encode_utf8,
}

-- A text of characters other than the separator is one part.
split_on_free :
    (sep : ℕ) (p : ℕ → Bool) (t : Text)
    → ((c : ℕ) → p c ≡ true → (c == sep) ≡ false)
    → all_of p t ≡ true
    → split_on sep t ≡ t ∷ []
unfolding split_on all_of
split_on_free sep p [] h a = refl
split_on_free sep p (c ∷ t) h a =
    let e = h c (ground (arith, a)) in rw (e, split_on_free sep p t h (ground (arith, a))) refl

-- It is the first part where the separator follows.
split_on-append :
    (sep : ℕ) (p : ℕ → Bool) (t u : Text)
    → ((c : ℕ) → p c ≡ true → (c == sep) ≡ false)
    → all_of p t ≡ true
    → split_on sep (t ++ sep ∷ u) ≡ t ∷ split_on sep u
unfolding split_on all_of
split_on-append sep p [] u h a = rw (==_refl sep) refl
split_on-append sep p (c ∷ t) u h a =
    let e = h c (ground (arith, a)) in rw (e, split_on-append sep p t u h (ground (arith, a))) refl

sextet_char_in : (n : ℕ) → n < 64 → is_base64_char (sextet_char n) ≡ true
unfolding is_base64_char
sextet_char_in n h = ground arith

encode_base64-all_of :
    (bytes : List ℕ) → AreBytes bytes → all_of is_base64_char (encode_base64 bytes) ≡ true
unfolding encode_base64 all_of
encode_base64-all_of [] h = refl
encode_base64-all_of (a ∷ []) (x, h) =
    rw (sextet_char_in (a / 4) (omega arith), sextet_char_in (a % 4 * 16) (omega arith)) refl
encode_base64-all_of (a ∷ b ∷ []) (x, (y, h)) =
    rw
      (
        sextet_char_in (a / 4) (omega arith),
        sextet_char_in (a % 4 * 16 + b / 16) (omega arith),
        sextet_char_in (b % 16 * 4) (omega arith),
      )
      refl
encode_base64-all_of (a ∷ b ∷ c ∷ rest) (x, (y, (z, h))) =
    rw
      (
        sextet_char_in (a / 4) (omega arith),
        sextet_char_in (a % 4 * 16 + b / 16) (omega arith),
        sextet_char_in (b % 16 * 4 + c / 64) (omega arith),
        sextet_char_in (c % 64) (omega arith),
      )
      (encode_base64-all_of rest h)

length-encode_base64 : (bytes : List ℕ) → length (encode_base64 bytes) * 3 ≤ length bytes * 4 + 2
unfolding encode_base64
length-encode_base64 [] = omega arith
length-encode_base64 (a ∷ []) = omega arith
length-encode_base64 (a ∷ b ∷ []) = omega arith
length-encode_base64 (a ∷ b ∷ c ∷ rest) = omega (arith, length-encode_base64 rest)

key_char-slash : (c : ℕ) → is_key_char c ≡ true → (c == b'/') ≡ false
key_char-slash c h = ground arith

base64_char-slash : (c : ℕ) → is_base64_char c ≡ true → (c == b'/') ≡ false
unfolding is_base64_char
base64_char-slash c h = ground arith

is_project_key-all_of : (key : Text) → is_project_key key ≡ true → all_of is_key_char key ≡ true
unfolding is_project_key all_of
is_project_key-all_of [] h = cc
is_project_key-all_of (c ∷ cs) h = ground (arith, h)

encode_base64_nonempty : (bytes : List ℕ) → is_empty (encode_base64 bytes) ≡ is_empty bytes
unfolding encode_base64
encode_base64_nonempty [] = refl
encode_base64_nonempty (a ∷ []) = refl
encode_base64_nonempty (a ∷ b ∷ []) = refl
encode_base64_nonempty (a ∷ b ∷ c ∷ rest) = refl

encode_utf8_nonempty : (t : Text) → is_empty (encode_utf8 t) ≡ is_empty t
unfolding encode_utf8
encode_utf8_nonempty [] = refl
encode_utf8_nonempty (c ∷ cs) = ground arith

-- The longest path that is allowed has an encoding of fewer characters than allowed.
short_enough : (n m : ℕ) → n * 3 ≤ m * 4 + 2 → m ≤ 4096 → ltb max_encoded_path_chars n ≡ false
short_enough n m h k = ground arith

-- A path that is encoded is decoded.
pub decode_relative_path-encode_relative_path :
    (path : Text)
    → AreScalars path
    → is_empty path ≡ false
    → utf8_length path ≤ 4096
    → decode_relative_path (encode_relative_path path) ≡ ok path
unfolding decode_relative_path encode_relative_path is_base64url
decode_relative_path-encode_relative_path path s n l =
    let b = encode_utf8-AreBytes path s in
    let a = encode_base64-all_of (encode_utf8 path) b in
    let e = encode_base64_nonempty (encode_utf8 path) ∙ encode_utf8_nonempty path ∙ n in
    let f =
      short_enough (length (encode_base64 (encode_utf8 path))) (length (encode_utf8 path))
        (length-encode_base64 (encode_utf8 path)) (rw (length-encode_utf8 path) l) in
    rw
      (
        e,
        f,
        a,
        decode_base64-encode_base64 (encode_utf8 path) b,
        decode_utf8-encode_utf8 path s,
        n,
        text_eq_refl (encode_base64 (encode_utf8 path)),
      )
      refl

-- The URI that is built for a project key and a path that is not empty, has no surrogate and at
-- most 4096 bytes is parsed, and gives the key and the path back.
pub parse_file_uri-build_file_uri :
    (project_key path : Text)
    → is_project_key project_key ≡ true
    → AreScalars path
    → is_empty path ≡ false
    → utf8_length path ≤ 4096
    → parse_file_uri (build_file_uri project_key path)
      ≡ ok (record { project_key = project_key; path = path })
unfolding parse_file_uri build_file_uri parse_segments
parse_file_uri-build_file_uri project_key path h s n l =
    let encoded = encode_relative_path path in
    let a : all_of is_base64_char (encode_relative_path path) ≡ true =
      unfold encode_relative_path in
      encode_base64-all_of (encode_utf8 path) (encode_utf8-AreBytes path s) in
    let p =
      split_on-append b'/' is_key_char project_key (encode_relative_path path) key_char-slash
        (is_project_key-all_of project_key h) in
    let q = split_on_free b'/' is_base64_char (encode_relative_path path) base64_char-slash a in
    rw
      (
        starts_with-append file_uri_prefix (project_key ++ b'/' ∷ encode_relative_path path),
        p,
        q,
        h,
        decode_relative_path-encode_relative_path path s n l,
      )
      refl

-- The path that is decoded is encoded as it was.
decode_relative_path-ok :
    (encoded path : Text)
    → decode_relative_path encoded ≡ ok path
    → encode_relative_path path ≡ encoded
unfolding decode_relative_path
decode_relative_path-ok encoded path h =
    let (u₁, e₁, h₁) =
      >>=-eq-ok
        (raise_if (is_empty encoded || ltb max_encoded_path_chars (length encoded)) Kind.validation)
        _ h in
    let (u₂, e₂, h₂) = >>=-eq-ok (raise_if (not (is_base64url encoded)) Kind.validation) _ h₁ in
    let (raw, e₃, h₃) = >>=-eq-ok (or_invalid (decode_base64 encoded)) _ h₂ in
    let (found, e₄, h₄) = >>=-eq-ok (or_invalid (decode_utf8 raw)) _ h₃ in
    let (u₅, e₅, h₅) = >>=-eq-ok (raise_if (is_empty found) Kind.validation) _ h₄ in
    last_guard found path h₅
  where
    last_guard :
        (found path : Text)
        → (raise_if (not (text_eq (encode_relative_path found) encoded)) Kind.validation
            >> ok found)
          ≡ ok path
        → encode_relative_path path ≡ encoded
    last_guard found path k =
        let e = text_eq_iff (encode_relative_path found) encoded in ground (arith, k, e)

parse_segments-ok :
    (segments : List Text) (parsed : ParsedFileUri)
    → parse_segments segments ≡ ok parsed
    → join_on b'/' segments ≡ parsed.project_key ++ b'/' ∷ encode_relative_path parsed.path
unfolding parse_segments join_on
parse_segments-ok [] parsed h = cc
parse_segments-ok (key ∷ []) parsed h = cc
parse_segments-ok (key ∷ encoded ∷ []) parsed h =
    let (u, e, k) = >>=-eq-ok (raise_if (not (is_project_key key)) Kind.validation) _ h in
    let (path, d, l) = >>=-eq-ok (decode_relative_path encoded) _ k in
    let same = decode_relative_path-ok encoded path d in
    subst
      (λ (p : ParsedFileUri).
        key ++ b'/' ∷ encoded ≡ p.project_key ++ b'/' ∷ encode_relative_path p.path)
      (ok_injective l) (rw same refl)
parse_segments-ok (a ∷ b ∷ c ∷ segments) parsed h = cc

-- A URI that is parsed is the one that is built for the project key and the path that it carries.
pub build_file_uri-parse_file_uri :
    (uri : Text) (parsed : ParsedFileUri)
    → parse_file_uri uri ≡ ok parsed
    → build_file_uri parsed.project_key parsed.path ≡ uri
unfolding parse_file_uri build_file_uri
build_file_uri-parse_file_uri uri parsed h = elim (Bool-cases (starts_with uri file_uri_prefix)) [
  | inl e ↦
      let rest = drop (length file_uri_prefix) uri in
      let k = rw e at h in
      let joined = parse_segments-ok (split_on b'/' (drop (length file_uri_prefix) uri)) parsed k in
      let back = join_on-split_on b'/' (drop (length file_uri_prefix) uri) in
      ap (λ t. file_uri_prefix ++ t) (sym joined ∙ back)
      ∙ sym (starts_with→append uri file_uri_prefix e)
  | inr e ↦ ground (arith, h, e)
]
