-- ===== src/Documents/Parse.antt =====
-- core/documents.py: a document inspected and parsed.
use ferumind.Common.{
  [], Bool, true, false, Option, none, some, if◌then◌else◌, Kind, Result, ok, err, ◌>>=◌, raise,
}
use ferumind.Text.{Text}
use ferumind.Text.Chars.{codes}
use ferumind.Runtime.{Runtime}
use ferumind.Runtime.Json.{JsonObject, str, lookup}
use ferumind.Frontmatter.{parse_frontmatter, validate_status, validate_edit_policy}
use ferumind.Frontmatter.Match.{match_block}
use ferumind.Folders.{Folder, folder_of, default_edit_policy}
use ferumind.Paths.Names.{name_of, stem_of_name}
use ferumind.Documents.{frontmatter_str, validate_identity, document_description}
use ferumind.DocumentMap.Titles.{infer_title}

pub record DocumentInspection : Type 0 where
  pub frontmatter : JsonObject
  pub managed : Bool
  pub folder : Folder
  pub description : Option Text
  pub description_valid : Bool
  pub status : Text
  pub edit_policy : Text
  pub edit_policy_explicit : Bool
  pub body : Text

pub record ParsedDocument : Type 0 where
  pub id : Text
  pub project_key : Text
  pub path : Text
  pub folder : Folder
  pub title : Text
  pub description : Text
  pub status : Text
  pub edit_policy : Text
  pub edit_policy_explicit : Bool
  pub content : Text
  pub body : Text
  pub sha256 : Text
  pub frontmatter : JsonObject
  pub created_at : Text
  pub updated_at : Text

-- The body behind the match of a pattern that takes the same text as _FRONTMATTER_RE.
unfoldable pub body_of : Text → Text
unfolding match_block
body_of content = elim (match_block content) [ none ↦ content | some m ↦ m.body ]

-- The description of a managed document, and whether it is valid.
unfoldable pub inspect_description : JsonObject → Bool → Bool → Result (Option Text × Bool)
unfolding document_description
inspect_description frontmatter managed require_description =
    if managed
    then elim (document_description frontmatter true) [
      | ok description ↦ ok (some description, true)
      | err exception ↦ if require_description then err exception else ok (none, false)
    ]
    else ok (none, true)

-- The status of a document, `active` where it has none.
unfoldable pub inspect_status : JsonObject → Result Text
unfolding validate_status
inspect_status frontmatter = elim (lookup (codes "status") frontmatter) [
  | none ↦ validate_status (codes "active")
  | some value ↦ elim value [
    | str status ↦ validate_status status
    | _ ↦ raise Kind.frontmatter_invalid
  ]
]

-- The edit policy of a document, that of its folder where it has none, and whether it is explicit.
unfoldable pub inspect_edit_policy : JsonObject → Folder → Result (Text × Bool)
unfolding validate_edit_policy default_edit_policy
inspect_edit_policy frontmatter folder = elim (lookup (codes "edit_policy") frontmatter) [
  | none ↦ ok (default_edit_policy folder, false)
  | some value ↦ elim value [
    | str policy ↦ validate_edit_policy policy >>= (λ valid. ok (valid, true))
    | _ ↦ raise Kind.frontmatter_invalid
  ]
]

-- description or ""
abbrev pub or_blank : Option Text → Text
or_blank none = []
or_blank (some text) = text

module _ (rt : Runtime) where
  unfoldable pub inspect_document_content : Text → Text → Text → Bool → Result DocumentInspection
  unfolding parse_frontmatter validate_identity inspect_description folder_of inspect_status
      inspect_edit_policy body_of
  inspect_document_content content project_key path require_description = do
    frontmatter ← parse_frontmatter rt content
    managed ← validate_identity frontmatter project_key
    description ← inspect_description frontmatter managed require_description
    folder ← folder_of path
    status ← inspect_status frontmatter
    policy ← inspect_edit_policy frontmatter folder
    ok (record {
      frontmatter = frontmatter;
      managed = managed;
      folder = folder;
      description = description.0;
      description_valid = description.1;
      status = status;
      edit_policy = policy.0;
      edit_policy_explicit = policy.1;
      body = body_of content;
    })

  unfoldable pub parse_document_content : Text → Text → Text → Result ParsedDocument
  unfolding inspect_document_content name_of stem_of_name infer_title frontmatter_str
  parse_document_content content project_key path = do
    inspection ← inspect_document_content content project_key path true
    ok (record {
      id = frontmatter_str inspection.frontmatter (codes "id") (stem_of_name (name_of path));
      project_key = project_key;
      path = path;
      folder = inspection.folder;
      title = infer_title rt inspection.frontmatter inspection.body path;
      description = or_blank inspection.description;
      status = inspection.status;
      edit_policy = inspection.edit_policy;
      edit_policy_explicit = inspection.edit_policy_explicit;
      content = content;
      body = inspection.body;
      sha256 = rt.sha256 content;
      frontmatter = inspection.frontmatter;
      created_at = frontmatter_str inspection.frontmatter (codes "created") [];
      updated_at = frontmatter_str inspection.frontmatter (codes "updated") [];
    })
