-- ===== src/Proposals/Lookup.antt =====
-- A proposal that core/patch_writes.py looks up is a row of the log.
use ferumind.Common.{
  ◌≡◌, refl, sym, ◌∙◌, subst, inl, inr, Bool, true, false, not, Option, none, some, arith,
  Option-cases, Result-cases, Kind, ok, raise,
}
use ferumind.Text.{Text}
use ferumind.Text.Chars.{text_eq, text_eq→eq}
use ferumind.Runtime.Json.{JsonObject, contains}
use ferumind.Operations.{
  Action, Row, OperationRecord, Platform, Log, >>=-eq-ok, ◌>>◌, lift, refuse_if, return,
}
use ferumind.Operations.Rows.{find_row}
use ferumind.Operations.Fetch.{get_operation, row_to_operation, with_request, decode_request}
use ferumind.Operations.Record.{proposal_op_types}
use ferumind.Proposals.{check_proposal, get_proposal_for_action}

-- Guards that let a run pass leave the log.
guards-ok :
    {A : Type 0} (a b : Bool) (k l : Kind) (value : A) (log : Log) {later : Log} {last : A}
    → (refuse_if a k >> (refuse_if b l >> return value)) log ≡ (later, ok last)
    → (log ≡ later) × (value ≡ last) × (a ≡ false) × (b ≡ false)
guards-ok true b k l value log h = cc
guards-ok false true k l value log h = cc
guards-ok false false k l value log h = (cc, cc, refl, refl)

-- An operation that is fetched is a row with its request, in a log that stays.
get_operation-ok :
    (platform : Platform) (id : Text) (log later : Log) (op : OperationRecord)
    → get_operation platform id log ≡ (later, ok (some op))
    → (log ≡ later)
      × ((row : Row) × (request : JsonObject) × (find_row id log.operations ≡ some row)
          × (op ≡ with_request row request))
unfolding get_operation row_to_operation
get_operation-ok platform id log later op h = elim (Option-cases (find_row id log.operations)) [
  | inl e ↦ ground (arith, h, e)
  | inr (row, e) ↦ elim (Result-cases (decode_request platform row.request_json)) [
    | inl (exception, d) ↦ ground (arith, h, e, d)
    | inr (request, d) ↦ (ground (arith, h, e, d), (row, request, e, ground (arith, h, e, d)))
  ]
]

-- A proposal that is looked up is a row, in a log that stays.
abbrev pub IsProposalRow :
    Platform → Text → Text → Log → OperationRecord → Row → JsonObject → Type 0
IsProposalRow platform project_key id log op row request =
    (find_row id log.operations ≡ some row)
    × (op ≡ with_request row request)
    × (contains proposal_op_types row.operation_type ≡ true)
    × (row.project_key ≡ project_key)

check_proposal-ok :
    (project_key : Text) (op : OperationRecord) (log : Log) {later : Log} {last : OperationRecord}
    → check_proposal project_key op log ≡ (later, ok last)
    → (log ≡ later)
      × (op ≡ last)
      × (contains proposal_op_types op.operation_type ≡ true)
      × (op.project_key ≡ project_key)
unfolding check_proposal
check_proposal-ok project_key op log h =
    let (same, value, a, b) =
      guards-ok (not (contains proposal_op_types op.operation_type))
        (not (text_eq op.project_key project_key)) Kind.invalid_operation
        Kind.patch_project_mismatch op log h in
    (
      same,
      value,
      not_false (contains proposal_op_types op.operation_type) a,
      text_eq→eq op.project_key project_key (not_false (text_eq op.project_key project_key) b),
    )
  where
    not_false : (b : Bool) → not b ≡ false → b ≡ true
    not_false true e = refl
    not_false false e = cc

pub get_proposal_for_action-ok :
    (platform : Platform) (project_key id : Text) (log : Log) {later : Log} {op : OperationRecord}
    → get_proposal_for_action platform project_key id log ≡ (later, ok op)
    → (log ≡ later)
      × ((row : Row) × (request : JsonObject) × IsProposalRow platform project_key id log op row
            request)
unfolding get_proposal_for_action
get_proposal_for_action-ok platform project_key id log {later = later} {op = op} h =
    let (between, found, g, k) = >>=-eq-ok (get_operation platform id) _ log h in
    by_found found between g k
  where
    by_found :
        (found : Option OperationRecord) (between : Log)
        → get_operation platform id log ≡ (between, ok found)
        → (elim found as (λ x. Action OperationRecord) [
          | none ↦ lift (raise Kind.operation_not_found)
          | some o ↦ check_proposal project_key o
        ])
            between
          ≡ (later, ok op)
        → (log ≡ later)
          × ((row : Row) × (request : JsonObject) × IsProposalRow platform project_key id log op row
                request)
    by_found none between g k = cc
    by_found (some o) between g k =
        let (same, (row, request, found, shape)) = get_operation-ok platform id log between o g in
        let (stays, value, known, owned) = check_proposal-ok project_key o between k in
        (
          same ∙ stays,
          (
            row,
            request,
            (
              found,
              sym value ∙ shape,
              subst (λ (x : OperationRecord). contains proposal_op_types x.operation_type ≡ true)
                  shape known,
              subst (λ (x : OperationRecord). x.project_key ≡ project_key) shape owned,
            ),
          ),
        )
