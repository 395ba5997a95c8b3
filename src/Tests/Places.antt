-- ===== src/Tests/Places.antt =====
-- Paths, folders and a parsed document.
use ferumind.Common.{◌≡◌, refl, false, [], ◌∷◌, ◌++◌, ok}
use ferumind.Text.{Text}
use ferumind.Text.Chars.{codes}
use ferumind.Text.Split
use ferumind.Paths
use ferumind.Paths.{Filesystem, Location}
use ferumind.Paths.Names
use ferumind.Paths.Contained.{IsContained, contained_path-IsContained}
use ferumind.Folders
use ferumind.Folders.{
  Folder, library, origin_path_for, archive_path_for, is_archived_path, folder_of,
}
use ferumind.Folders.Mirror.{IsRelative, origin_path_for-archive_path_for}
use ferumind.Documents
use ferumind.DocumentMap.Titles
use ferumind.Documents.Parse
use ferumind.Documents.Parse.{ParsedDocument}
use ferumind.Documents.Laws.{IsParsed, parse_document_content-IsParsed}
use ferumind.Runtime.Json.{str}
use ferumind.Tests.Sample.{sample, running}

-- Whatever unfolds this unfolds core/paths.py, core/folders.py and core/documents.py.
unfoldable pub placing : Unit {0}
unfolding running Split.split_on Split.join_on Paths.components Paths.parts_of Paths.as_posix
    Paths.any_char Paths.is_below Paths.any_long Paths.is_under_root Paths.walk Paths.contained_path
    Names.name_of Names.last_dot Names.suffix_at Names.suffix_of_name Names.stem_of_name
    Folders.folder_literal Folders.folder_of_parts Folders.folder_of Folders.is_archived_path
    Folders.default_edit_policy Folders.archive_path_for Folders.origin_of_parts
    Folders.origin_path_for Documents.is_unset Documents.frontmatter_str Documents.validate_identity
    Documents.document_description Titles.h1_text Titles.find_h1 Titles.file_name
    Titles.remove_suffix Titles.frontmatter_title Titles.infer_title Parse.body_of
    Parse.inspect_description Parse.inspect_status Parse.inspect_edit_policy
    Parse.inspect_document_content Parse.parse_document_content
placing = tt

-- No links.
abbrev pub plain_disk : Filesystem
plain_disk = record { is_symlink = λ p. false; resolve = λ p. p }

abbrev target : Location
target = codes "w" ∷ codes "library" ∷ codes "a.md" ∷ []

contained_path_example : IsContained plain_disk (codes "w" ∷ []) (codes "library/a.md") target
unfolding placing
contained_path_example =
    contained_path-IsContained plain_disk (codes "w" ∷ []) (codes "library/a.md") target refl

path_IsRelative : IsRelative (codes "library/a.md")
unfolding placing
path_IsRelative = record { relative = refl; canonical = refl; named = refl }

origin_path_for_example :
    origin_path_for (archive_path_for (codes "library/a.md")) ≡ ok (codes "library/a.md")
origin_path_for_example = origin_path_for-archive_path_for (codes "library/a.md") path_IsRelative

abbrev note : Text
note =
    codes "---"
    ++ 10
      ∷ (codes "id: d"
          ++ 10
            ∷ (codes "type: document"
                ++ 10
                  ∷ (codes "project: p"
                      ++ 10
                        ∷ (codes "description: text"
                            ++ 10
                              ∷ (codes "status: frozen"
                                  ++ 10 ∷ (codes "---" ++ 10 ∷ codes "# Title"))))))

abbrev parsed : ParsedDocument
parsed = record {
  id = codes "d";
  project_key = codes "p";
  path = codes "library/a.md";
  folder = library;
  title = codes "Title";
  description = codes "text";
  status = codes "frozen";
  edit_policy = codes "propose-first";
  edit_policy_explicit = false;
  content = note;
  body = codes "# Title";
  sha256 = note;
  frontmatter =
      (codes "id", str (codes "d"))
      ∷ (codes "type", str (codes "document"))
      ∷ (codes "project", str (codes "p"))
      ∷ (codes "description", str (codes "text"))
      ∷ (codes "status", str (codes "frozen"))
      ∷ [];
  created_at = [];
  updated_at = [];
}

parse_document_content_example : IsParsed sample note (codes "p") (codes "library/a.md") parsed
unfolding placing
parse_document_content_example =
    parse_document_content-IsParsed sample note (codes "p") (codes "library/a.md") parsed refl
