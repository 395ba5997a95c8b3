-- ===== src/Operations/RoundTrip.antt =====
-- What core/operations.py fetches of a proposal that it recorded.
use ferumind.Common.{
  suc, ◌+◌, ◌≡◌, refl, sym, ap, subst, inl, inr, Bool, true, false, some, List, [], ◌∷◌, ◌++◌,
  arith, if◌then◌else◌, Bool-cases, ok,
}
use ferumind.Text.{Text}
use ferumind.Text.Chars.{is_empty, text_eq_refl}
use ferumind.Runtime.Json.{object, Fields, JsonObject, contains}
use ferumind.Operations.{
  pending, is_pending, Row, OperationRecord, Platform, Log, >>=-eq-ok, ◌>>◌, return, commit_if,
}
use ferumind.Operations.Rows.{has_id, find_row}
use ferumind.Operations.Record.{
  proposal_op_types, proposal_ttl, Entry, Proposal, row_of, insert_row, check_pending_limits,
  or_audit_id, record_operation, new_proposal_id, record_proposal,
}
use ferumind.Operations.Fetch.{
  entries, coerce_json_object, with_request, decode_request, row_to_operation, get_operation,
}
use ferumind.Operations.Writes.{proposal_entry, proposal_log}

-- A request is written as JSON that is read back as a dict with its entries.
pub record IsReadBack (platform : Platform) (request : JsonObject) : Type 0 where
  pub fields : Fields
  pub nonempty : is_empty (platform.dumps request) ≡ false
  pub reads : platform.loads (platform.dumps request) ≡ some (object fields)
  pub same : entries fields ≡ request

-- An operation is the one of a proposal, with an id and an expiry.
pub record IsOperationOf (proposal : Proposal) (id expires_at : Text) (operation : OperationRecord)
    : Type 0 where
  pub identity : operation.id ≡ id
  pub project : operation.project_key ≡ proposal.project_key
  pub kind : operation.operation_type ≡ proposal.operation_type
  pub path : operation.target_path ≡ some proposal.target_path
  pub request : operation.request_json ≡ proposal.request_json
  pub base : operation.base_sha256 ≡ proposal.base_sha256
  pub after : operation.after_sha256 ≡ some proposal.after_sha256
  pub diff : operation.diff_text ≡ some proposal.diff_text
  pub waits : operation.state ≡ pending
  pub expires : operation.expires_at ≡ some expires_at

find_row-append :
    (row : Row) (rows : List Row)
    → has_id row.id rows ≡ false
    → find_row row.id (rows ++ (row ∷ [])) ≡ some row
unfolding has_id find_row
find_row-append row [] h = rw (text_eq_refl row.id) refl
find_row-append row (x ∷ rows) h = ground (arith, find_row-append row rows)

-- An insertion that ends in a value adds its row at the end.
insert_row-ok :
    {A : Type 0} (row : Row) (commit : Bool) (value : A) (log : Log) {later : Log} {last : A}
    → (insert_row row >> (commit_if commit >> return value)) log ≡ (later, ok last)
    → (value ≡ last)
      × (has_id row.id log.operations ≡ false)
      × (later.operations ≡ log.operations ++ (row ∷ []))
unfolding insert_row
insert_row-ok row true value log h = elim (Bool-cases (has_id row.id log.operations)) [
  | inl e ↦ ground (arith, h, e)
  | inr e ↦ (ground (arith, h, e), e, ground (arith, h, e))
]
insert_row-ok row false value log h = elim (Bool-cases (has_id row.id log.operations)) [
  | inl e ↦ ground (arith, h, e)
  | inr e ↦ (ground (arith, h, e), e, ground (arith, h, e))
]

-- An operation that is recorded is the last row, under a new id.
pub record_operation-ok :
    (platform : Platform) (entry : Entry) (log : Log) {later : Log} {id : Text}
    → record_operation platform entry log ≡ (later, ok id)
    → (rows : List Row) × (created_at : Text) × (has_id id rows ≡ false)
      × (later.operations
          ≡ rows ++ (row_of entry (platform.dumps entry.request_json) id created_at ∷ []))
unfolding record_operation
record_operation-ok platform entry log {later = later} {id = id} h =
    let (checked, u, e, k) =
      >>=-eq-ok
        (if is_pending entry.state
          then check_pending_limits platform entry (platform.dumps entry.request_json)
          else return tt)
        _ log h in
    let (drawn, op_id, d, i) = >>=-eq-ok (or_audit_id platform entry.operation_id) _ checked k in
    let created_at = platform.isoformat (platform.clock drawn.readings) in
    let (same, fresh, end) =
      insert_row-ok (row_of entry (platform.dumps entry.request_json) op_id created_at) entry.commit
        op_id (record drawn { readings = suc drawn.readings }) i in
    (
      drawn.operations,
      created_at,
      subst (λ t. has_id t drawn.operations ≡ false) same fresh,
      subst
          (λ t.
            later.operations
            ≡ drawn.operations
              ++ (row_of entry (platform.dumps entry.request_json) t created_at ∷ []))
          same end,
    )

-- A last row whose request is read back is fetched by its id.
get_operation_last :
    (platform : Platform) (row : Row) (rows : List Row) (request : JsonObject) (log : Log)
    → has_id row.id rows ≡ false
    → row.request_json ≡ platform.dumps request
    → IsReadBack platform request
    → log.operations ≡ rows ++ (row ∷ [])
    → get_operation platform row.id log ≡ (log, ok (some (with_request row request)))
unfolding get_operation row_to_operation decode_request coerce_json_object
get_operation_last platform row rows request log fresh written back grown =
    let found : find_row row.id log.operations ≡ some row =
      rw grown (find_row-append row rows fresh) in
    ground (arith, found, written, back.nonempty, back.reads, back.same)

-- A proposal of a known type that is recorded is recorded as its entry.
record_proposal-ok :
    (platform : Platform) (proposal : Proposal) (log : Log) {later : Log} {id expires_at : Text}
    → record_proposal platform proposal log ≡ (later, ok (id, expires_at))
    → (record_operation platform (proposal_entry platform proposal log) (proposal_log log)
        ≡ (later, ok id))
      × (expires_at ≡ platform.isoformat (platform.clock log.readings + proposal_ttl))
unfolding record_proposal new_proposal_id
record_proposal-ok platform proposal log h =
    elim (Bool-cases (contains proposal_op_types proposal.operation_type)) [
      | inr e ↦ ground (arith, h, e)
      | inl e ↦
          let k = rw e at h in
          let (recorded, op_id, r, ended) =
            >>=-eq-ok (record_operation platform (proposal_entry platform proposal log))
              (λ op_id.
                return (op_id, platform.isoformat (platform.clock log.readings + proposal_ttl)))
              (proposal_log log) k in
          (cc, cc)
    ]

-- A proposal that is recorded, and whose request is read back as JSON, is fetched by its id as a
-- pending operation with the project, type, path, request, hashes and diff of the proposal, and
-- with an expiry of 24 hours behind the time at which it was recorded.
pub record_proposal-get_operation :
    (platform : Platform) (proposal : Proposal) (log later : Log) (id expires_at : Text)
    → IsReadBack platform proposal.request_json
    → record_proposal platform proposal log ≡ (later, ok (id, expires_at))
    → (operation : OperationRecord) × (get_operation platform id later
        ≡ (later, ok (some operation)))
      × IsOperationOf proposal id expires_at operation
      × (expires_at ≡ platform.isoformat (platform.clock log.readings + proposal_ttl))
record_proposal-get_operation platform proposal log later id expires_at back h =
    let (recorded, expiry) = record_proposal-ok platform proposal log h in
    let entry = proposal_entry platform proposal log in
    let (rows, created_at, fresh, grown) =
      record_operation-ok platform entry (proposal_log log) recorded in
    let row = row_of entry (platform.dumps proposal.request_json) id created_at in
    (
      with_request row proposal.request_json,
      get_operation_last platform row rows proposal.request_json later fresh refl back grown,
      record {
        identity = refl;
        project = refl;
        kind = refl;
        path = refl;
        request = refl;
        base = refl;
        after = refl;
        diff = refl;
        waits = refl;
        expires = ap some (sym expiry);
      },
      expiry,
    )
