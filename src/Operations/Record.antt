-- ===== src/Operations/Record.antt =====
-- core/operations.py: record_operation and record_proposal.
use ferumind.Common.{
  ℕ, ◌+◌, Bool, true, not, Option, none, some, List, [], ◌∷◌, ◌++◌, ltb, leb, if◌then◌else◌, Kind,
}
use ferumind.Text.{Text}
use ferumind.Text.Chars.{codes}
use ferumind.Runtime.Json.{JsonObject, contains}
use ferumind.Operations.{
  State, pending, is_pending, Row, Platform, Action, ◌>>=◌, ◌>>◌, return, refuse_if, fetch_rows,
  write_rows, commit_if, now, draw_token, new_audit_id,
}
use ferumind.Operations.Rows.{content_bytes, pending_count, pending_bytes, has_id}
use ferumind.Operations.Sweep.{sweep_expired_proposals}

abbrev pub max_pending_operations_per_project : ℕ
max_pending_operations_per_project = 1000

abbrev pub max_pending_operation_bytes_per_project : ℕ
max_pending_operation_bytes_per_project = 67108864

-- PROPOSAL_TTL, in microseconds
abbrev pub proposal_ttl : ℕ
proposal_ttl = 86400000000

abbrev pub source_agent : Text
source_agent = codes "agent"

abbrev pub proposal_op_types : List Text
proposal_op_types =
    codes "propose_patch"
    ∷ codes "propose_section_patch"
    ∷ codes "propose_range_patch"
    ∷ codes "propose_search_replace_patch"
    ∷ codes "propose_exact_replace_patch"
    ∷ codes "propose_multi_edit_patch"
    ∷ codes "propose_frontmatter_patch"
    ∷ codes "propose_insert_patch"
    ∷ []

-- The arguments of record_operation.
pub record Entry : Type 0 where
  pub project_key : Text
  pub operation_type : Text
  pub tool_name : Option Text
  pub target_path : Option Text
  pub source : Text
  pub request_json : JsonObject
  pub base_sha256 : Option Text
  pub after_sha256 : Option Text
  pub diff_text : Option Text
  pub snapshot_id : Option Text
  pub state : State
  pub expires_at : Option Text
  pub operation_id : Option Text
  pub commit : Bool

-- The arguments of record_proposal.
pub record Proposal : Type 0 where
  pub project_key : Text
  pub operation_type : Text
  pub target_path : Text
  pub request_json : JsonObject
  pub base_sha256 : Option Text
  pub after_sha256 : Text
  pub diff_text : Text

-- The row of an entry.
abbrev pub row_of : Entry → Text → Text → Text → Row
row_of entry serialized_request op_id created_at = record {
  id = op_id;
  project_key = entry.project_key;
  operation_type = entry.operation_type;
  tool_name = entry.tool_name;
  target_path = entry.target_path;
  source = entry.source;
  request_json = serialized_request;
  base_sha256 = entry.base_sha256;
  after_sha256 = entry.after_sha256;
  diff_text = entry.diff_text;
  snapshot_id = entry.snapshot_id;
  state = entry.state;
  created_at = created_at;
  expires_at = entry.expires_at;
}

-- INSERT: the id is the primary key.
unfoldable pub insert_row : Row → Action (Unit {0})
unfolding has_id
insert_row row = do
  rows ← fetch_rows
  refuse_if (has_id row.id rows) Kind.integrity_error
  write_rows (rows ++ (row ∷ []))

module _ (platform : Platform) where
  -- The limits of a project's pending operations.
  unfoldable pub check_pending_limits : Entry → Text → Action (Unit {0})
  unfolding pending_count pending_bytes
  check_pending_limits entry serialized_request = do
    sweep_expired_proposals platform entry.project_key entry.commit
    rows ← fetch_rows
    refuse_if (leb max_pending_operations_per_project (pending_count entry.project_key rows))
        Kind.validation
    refuse_if
        (ltb max_pending_operation_bytes_per_project
          (pending_bytes entry.project_key rows + content_bytes serialized_request entry.diff_text))
        Kind.validation

  -- operation_id or new_audit_id()
  abbrev pub or_audit_id : Option Text → Action Text
  or_audit_id none = new_audit_id platform
  or_audit_id (some []) = new_audit_id platform
  or_audit_id (some (c ∷ cs)) = return (c ∷ cs)

  unfoldable pub record_operation : Entry → Action Text
  unfolding check_pending_limits insert_row
  record_operation entry = do
    serialized_request ← return (platform.dumps entry.request_json)
    if is_pending entry.state then check_pending_limits entry serialized_request else return tt
    op_id ← or_audit_id entry.operation_id
    time ← now platform
    insert_row (row_of entry serialized_request op_id (platform.isoformat time))
    commit_if entry.commit
    return op_id

  -- new_proposal_id
  unfoldable pub new_proposal_id : Action Text
  new_proposal_id = do token ← draw_token platform; return (codes "op_" ++ token)

  -- The entry of a proposal.
  abbrev pub entry_of : Proposal → Text → Text → Entry
  entry_of proposal expires_at op_id = record {
    project_key = proposal.project_key;
    operation_type = proposal.operation_type;
    tool_name = some proposal.operation_type;
    target_path = some proposal.target_path;
    source = source_agent;
    request_json = proposal.request_json;
    base_sha256 = proposal.base_sha256;
    after_sha256 = some proposal.after_sha256;
    diff_text = some proposal.diff_text;
    snapshot_id = none;
    state = pending;
    expires_at = some expires_at;
    operation_id = some op_id;
    commit = true;
  }

  unfoldable pub record_proposal : Proposal → Action (Text × Text)
  unfolding record_operation new_proposal_id
  record_proposal proposal = do
    refuse_if (not (contains proposal_op_types proposal.operation_type)) Kind.value_error
    time ← now platform
    expires_at ← return (platform.isoformat (time + proposal_ttl))
    fresh_id ← new_proposal_id
    op_id ← record_operation (entry_of proposal expires_at fresh_id)
    return (op_id, expires_at)
