-- ===== src/Documents/Laws.antt =====
-- What core/documents.py promises of a document that it parses.
use ferumind.Common.{
  ◌≡◌, refl, subst, Bool, true, false, none, some, arith, ok_injective, ok, >>=-eq-ok,
}
use ferumind.Text.{Text}
use ferumind.Text.Chars.{codes, text_eq}
use ferumind.Runtime.{Runtime}
use ferumind.Runtime.Json.{JsonObject, contains, lookup, str}
use ferumind.Frontmatter.{
  allowed_statuses, allowed_edit_policies, parse_frontmatter, validate_status, validate_edit_policy,
}
use ferumind.Folders.{
  Folder, spine, rules, canvases, memory, library, inbox, archive, folder_of, default_edit_policy,
}
use ferumind.Documents.{validate_identity}
use ferumind.Documents.Identity.{IsIdentity, validate_identity-IsIdentity}
use ferumind.Documents.Parse.{
  DocumentInspection, ParsedDocument, body_of, inspect_description, inspect_status,
  inspect_edit_policy, inspect_document_content, parse_document_content,
}

inspect_status-contains :
    (frontmatter : JsonObject) (status : Text)
    → inspect_status frontmatter ≡ ok status
    → contains allowed_statuses status ≡ true
unfolding inspect_status validate_status
inspect_status-contains frontmatter status h = ground (
  arith,
  h,
  (let e : contains allowed_statuses (codes "active") ≡ true = unfold contains text_eq in refl in
      e),
)

-- The policy is that of the frontmatter, or that of the folder.
abbrev pub IsPolicy : JsonObject → Folder → Text → Bool → Type 0
IsPolicy frontmatter folder policy true =
    lookup (codes "edit_policy") frontmatter ≡ some (str policy)
IsPolicy frontmatter folder policy false =
    (lookup (codes "edit_policy") frontmatter ≡ none) × (policy ≡ default_edit_policy folder)

default_edit_policy_allowed :
    (folder : Folder) → contains allowed_edit_policies (default_edit_policy folder) ≡ true
unfolding default_edit_policy contains text_eq
default_edit_policy_allowed spine = refl
default_edit_policy_allowed rules = refl
default_edit_policy_allowed canvases = refl
default_edit_policy_allowed memory = refl
default_edit_policy_allowed library = refl
default_edit_policy_allowed inbox = refl
default_edit_policy_allowed archive = refl

inspect_edit_policy-IsPolicy :
    (frontmatter : JsonObject) (folder : Folder) (policy : Text) (explicit : Bool)
    → inspect_edit_policy frontmatter folder ≡ ok (policy, explicit)
    → (contains allowed_edit_policies policy ≡ true) × IsPolicy frontmatter folder policy explicit
unfolding inspect_edit_policy validate_edit_policy
inspect_edit_policy-IsPolicy frontmatter folder policy true h =
    (ground (arith, h), ground (arith, h))
inspect_edit_policy-IsPolicy frontmatter folder policy false h =
    (ground (arith, h, default_edit_policy_allowed folder), (ground (arith, h), ground (arith, h)))

-- What is known of a parsed document.
pub record IsParsed (rt : Runtime) (content project_key path : Text) (document : ParsedDocument)
    : Type 0 where
  pub managed : Bool
  pub origin : parse_frontmatter rt content ≡ ok document.frontmatter
  pub identity : IsIdentity document.frontmatter project_key managed
  pub folder : folder_of path ≡ ok document.folder
  pub status : contains allowed_statuses document.status ≡ true
  pub allowed : contains allowed_edit_policies document.edit_policy ≡ true
  pub policy :
      IsPolicy document.frontmatter document.folder document.edit_policy
        document.edit_policy_explicit
  pub body : document.body ≡ body_of content
  pub hash : document.sha256 ≡ rt.sha256 content

-- The same of an inspection.
record IsInspected (rt : Runtime) (content project_key path : Text)
    (inspection : DocumentInspection) : Type 0 where
  origin : parse_frontmatter rt content ≡ ok inspection.frontmatter
  identity : IsIdentity inspection.frontmatter project_key inspection.managed
  folder : folder_of path ≡ ok inspection.folder
  status : contains allowed_statuses inspection.status ≡ true
  allowed : contains allowed_edit_policies inspection.edit_policy ≡ true
  policy :
      IsPolicy inspection.frontmatter inspection.folder inspection.edit_policy
        inspection.edit_policy_explicit
  body : inspection.body ≡ body_of content

inspect_document_content-IsInspected :
    (rt : Runtime) (content project_key path : Text) (require_description : Bool)
    (inspection : DocumentInspection)
    → inspect_document_content rt content project_key path require_description ≡ ok inspection
    → IsInspected rt content project_key path inspection
unfolding inspect_document_content
inspect_document_content-IsInspected rt content project_key path require_description inspection h =
    let (frontmatter, f, h₁) = >>=-eq-ok (parse_frontmatter rt content) _ h in
    let (managed, m, h₂) = >>=-eq-ok (validate_identity frontmatter project_key) _ h₁ in
    let (description, d, h₃) =
      >>=-eq-ok (inspect_description frontmatter managed require_description) _ h₂ in
    let (folder, o, h₄) = >>=-eq-ok (folder_of path) _ h₃ in
    let (status, t, h₅) = >>=-eq-ok (inspect_status frontmatter) _ h₄ in
    let (policy, p, h₆) = >>=-eq-ok (inspect_edit_policy frontmatter folder) _ h₅ in
    let (allowed, explicit) = inspect_edit_policy-IsPolicy frontmatter folder policy.0 policy.1 p in
    subst (IsInspected rt content project_key path) (ok_injective h₆) (record {
      origin = f;
      identity = validate_identity-IsIdentity frontmatter project_key managed m;
      folder = o;
      status = inspect_status-contains frontmatter status t;
      allowed = allowed;
      policy = explicit;
      body = refl;
    })

-- A document that is parsed has the mapping of its frontmatter, the identity of a managed document
-- of the project or of no managed document, the folder of its path, an allowed status, an allowed
-- edit policy, which is that of the frontmatter or else the default of the folder, the body behind
-- the block, and the hash of the content.
pub parse_document_content-IsParsed :
    (rt : Runtime) (content project_key path : Text) (document : ParsedDocument)
    → parse_document_content rt content project_key path ≡ ok document
    → IsParsed rt content project_key path document
unfolding parse_document_content
parse_document_content-IsParsed rt content project_key path document h =
    let (inspection, e, last) =
      >>=-eq-ok (inspect_document_content rt content project_key path true) _ h in
    let i = inspect_document_content-IsInspected rt content project_key path true inspection e in
    subst (IsParsed rt content project_key path) (ok_injective last) (record {
      managed = inspection.managed;
      origin = i.origin;
      identity = i.identity;
      folder = i.folder;
      status = i.status;
      allowed = i.allowed;
      policy = i.policy;
      body = i.body;
      hash = refl;
    })
