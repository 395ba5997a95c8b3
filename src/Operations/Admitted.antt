-- ===== src/Operations/Admitted.antt =====
-- The functions of core/operations.py that record keep the ids of the log distinct, and its limits.
use ferumind.Common.{
  suc, ◌+◌, ◌≤◌, ◌<◌, ◌≡◌, refl, subst, inl, inr, Bool, true, false, Option, none, some, List, [],
  ◌∷◌, ◌++◌, arith, ltb, leb, if◌then◌else◌, Bool-cases, Kind, ok,
}
use ferumind.Text.{Text}
use ferumind.Operations.{
  is_pending, Row, Platform, Log, >>=-eq-ok, ◌>>◌, return, refuse_if, commit_if,
}
use ferumind.Operations.Rows.{content_bytes, pending_count, pending_bytes, has_id}
use ferumind.Operations.Sweep.{sweep_expired_proposals}
use ferumind.Operations.Record.{
  max_pending_operations_per_project, max_pending_operation_bytes_per_project, row_of, Entry,
  Proposal, insert_row, check_pending_limits, or_audit_id, record_operation, new_proposal_id,
  record_proposal, proposal_op_types,
}
use ferumind.Runtime.Json.{contains}
use ferumind.Operations.Bounds.{append-IsTable}
use ferumind.Operations.Writes.{proposal_entry, proposal_log}
use ferumind.Operations.Kept.{IsLog, continue-IsLog, commit-IsLog, sweep-IsLog}

-- What the limits leave for a row.
abbrev HasRoom : Text → Text → Option Text → List Row → Type 0
HasRoom project_key request_json diff_text rows =
    (pending_count project_key rows < max_pending_operations_per_project)
    × (pending_bytes project_key rows + content_bytes request_json diff_text
        ≤ max_pending_operation_bytes_per_project)

guards-IsLog :
    (a b : Bool) (k : Kind) (log : Log) → IsLog log → IsLog ((refuse_if a k >> refuse_if b k) log).0
guards-IsLog true b k log h = h
guards-IsLog false true k log h = h
guards-IsLog false false k log h = h

-- Guards that let a run pass leave the log.
guards-ok :
    (a b : Bool) (k : Kind) (log : Log) {later : Log}
    → (refuse_if a k >> refuse_if b k) log ≡ (later, ok tt)
    → (log ≡ later) × (a ≡ false) × (b ≡ false)
guards-ok true b k log h = cc
guards-ok false true k log h = cc
guards-ok false false k log h = (cc, refl, refl)

check-IsLog :
    (platform : Platform) (entry : Entry) (text : Text) (log : Log)
    → IsLog log
    → IsLog (check_pending_limits platform entry text log).0
unfolding check_pending_limits
check-IsLog platform entry text log h =
    continue-IsLog (sweep_expired_proposals platform entry.project_key entry.commit log) _
      (sweep-IsLog platform entry.project_key entry.commit log h)
      (λ n between e i. guards-IsLog _ _ Kind.validation between i)

-- Where the limits are kept, there is room.
check-HasRoom :
    (platform : Platform) (entry : Entry) (text : Text) (log later : Log)
    → check_pending_limits platform entry text log ≡ (later, ok tt)
    → HasRoom entry.project_key text entry.diff_text later.operations
unfolding check_pending_limits
check-HasRoom platform entry text log later h =
    let (between, n, e, k) =
      >>=-eq-ok (sweep_expired_proposals platform entry.project_key entry.commit) _ log h in
    let (same, a, b) =
      guards-ok
        (leb max_pending_operations_per_project
          (pending_count entry.project_key between.operations))
        (ltb max_pending_operation_bytes_per_project
          (pending_bytes entry.project_key between.operations + content_bytes text entry.diff_text))
        Kind.validation between k in
    subst (λ l. HasRoom entry.project_key text entry.diff_text l.operations) same
      (ground arith, ground arith)

if_check-IsLog :
    (platform : Platform) (b : Bool) (entry : Entry) (text : Text) (log : Log)
    → IsLog log
    → IsLog ((if b then check_pending_limits platform entry text else return tt) log).0
if_check-IsLog platform true entry text log h = check-IsLog platform entry text log h
if_check-IsLog platform false entry text log h = h

if_check-HasRoom :
    (platform : Platform) (b : Bool) (entry : Entry) (text : Text) (log later : Log)
    → (if b then check_pending_limits platform entry text else return tt) log ≡ (later, ok tt)
    → b ≡ true
    → HasRoom entry.project_key text entry.diff_text later.operations
if_check-HasRoom platform true entry text log later h e =
    check-HasRoom platform entry text log later h
if_check-HasRoom platform false entry text log later h e = cc

insert-IsLog {ℓ} :
    {A : Type ℓ} (row : Row) (commit : Bool) (value : A) (log : Log)
    → IsLog log
    → (is_pending row.state ≡ true
        → HasRoom row.project_key row.request_json row.diff_text log.operations)
    → IsLog ((insert_row row >> (commit_if commit >> return value)) log).0
unfolding insert_row
insert-IsLog row commit value log h room = elim (Bool-cases (has_id row.id log.operations)) [
  | inl e ↦ rw e h
  | inr e ↦ rw e (
      commit-IsLog commit value (record log { operations = log.operations ++ (row ∷ []) })
        (append-IsTable log.operations row h.0 e room, h.1))
]

-- Where an id comes from, the rows and the last commit stay.
or_audit_id-same :
    (platform : Platform) (id : Option Text) (log : Log)
    → ((or_audit_id platform id log).0.operations ≡ log.operations)
      × ((or_audit_id platform id log).0.saved ≡ log.saved)
or_audit_id-same platform none log = (refl, refl)
or_audit_id-same platform (some []) log = (refl, refl)
or_audit_id-same platform (some (c ∷ cs)) log = (refl, refl)

pub record_operation-IsLog :
    (platform : Platform) (entry : Entry) (log : Log)
    → IsLog log
    → IsLog (record_operation platform entry log).0
unfolding record_operation
record_operation-IsLog platform entry log h =
    continue-IsLog _ _
      (if_check-IsLog platform (is_pending entry.state) entry (platform.dumps entry.request_json)
        log h)
      (λ u checked e i.
        let same = or_audit_id-same platform entry.operation_id checked in
        continue-IsLog (or_audit_id platform entry.operation_id checked) _ (rw (same.0, same.1) i)
          (λ op_id drawn d j.
            insert-IsLog
              (row_of entry (platform.dumps entry.request_json) op_id
                (platform.isoformat (platform.clock drawn.readings)))
              entry.commit op_id (record drawn { readings = suc drawn.readings }) j
              (λ p.
                let q : checked.operations ≡ drawn.operations = cc in
                subst
                  (HasRoom entry.project_key (platform.dumps entry.request_json) entry.diff_text) q
                  (if_check-HasRoom platform (is_pending entry.state) entry
                    (platform.dumps entry.request_json) log checked e p))))

pub record_proposal-IsLog :
    (platform : Platform) (proposal : Proposal) (log : Log)
    → IsLog log
    → IsLog (record_proposal platform proposal log).0
unfolding record_proposal new_proposal_id
record_proposal-IsLog platform proposal log h =
    elim (Bool-cases (contains proposal_op_types proposal.operation_type)) [
      | inl e ↦ rw e (
          continue-IsLog
            (record_operation platform (proposal_entry platform proposal log) (proposal_log log)) _
            (record_operation-IsLog platform (proposal_entry platform proposal log)
              (proposal_log log) h)
            (λ op_id later e i. i))
      | inr e ↦ rw e h
    ]
