-- ===== src/Tests/Uris.antt =====
-- The URI of a file of a project.
use ferumind.Common.{◌≡◌, refl, inl, inr, [], ◌∷◌, arith, ok}
use ferumind.Text.{Text}
use ferumind.Text.Chars
use ferumind.Text.Chars.{codes}
use ferumind.Text.Split
use ferumind.FileUri
use ferumind.FileUri.{ParsedFileUri, build_file_uri, parse_file_uri}
use ferumind.FileUri.Codec
use ferumind.FileUri.Codec.{
  decode_base64, encode_base64, decode_base64-encode_base64, encode_utf8, decode_utf8,
}
use ferumind.FileUri.Utf8.{AreScalars}
use ferumind.FileUri.Laws.{parse_file_uri-build_file_uri, build_file_uri-parse_file_uri}

-- Whatever unfolds this unfolds core/file_uri.py.
unfoldable pub linking : Unit {0}
unfolding Chars.text_eq Chars.starts_with Chars.utf8_length Split.split_on Codec.encode_utf8
    Codec.decode_from Codec.decode_utf8 Codec.is_base64_char Codec.encode_base64 Codec.decode_base64
    FileUri.all_of FileUri.is_project_key FileUri.is_base64url FileUri.encode_relative_path
    FileUri.decode_relative_path FileUri.build_file_uri FileUri.parse_segments
    FileUri.parse_file_uri
linking = tt

-- A path with a character of each size.
abbrev path : Text
path = 97 ∷ 233 ∷ 8364 ∷ 128512 ∷ []

path_AreScalars : AreScalars path
path_AreScalars = (
  inl (omega arith),
  (inl (omega arith), (inl (omega arith), (inr (omega arith, omega arith), tt))),
)

parse_file_uri_example :
    parse_file_uri (build_file_uri (codes "p-1") path)
    ≡ ok (record { project_key = codes "p-1"; path = path })
unfolding linking
parse_file_uri_example =
    parse_file_uri-build_file_uri (codes "p-1") path refl path_AreScalars refl (omega arith)

abbrev parsed : ParsedFileUri
parsed = record { project_key = codes "p"; path = codes "a.md" }

build_file_uri_example :
    build_file_uri (codes "p") (codes "a.md") ≡ codes "ferumind://file/p/YS5tZA"
unfolding linking
build_file_uri_example =
    build_file_uri-parse_file_uri (codes "ferumind://file/p/YS5tZA") parsed refl
