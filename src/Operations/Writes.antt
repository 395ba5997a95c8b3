-- ===== src/Operations/Writes.antt =====
-- The functions of core/operations.py write the log by steps that only add rows and close proposals.
use ferumind.Common.{
  suc, ◌+◌, ◌≡◌, inl, inr, Bool, true, false, Option, none, some, List, [], ◌∷◌, ◌++◌, arith,
  if◌then◌else◌, Bool-cases, Result-cases, Result, ok, err,
}
use ferumind.Text.{Text}
use ferumind.Operations.{
  ◌>>◌, return, Action, continue, State, is_pending, Row, Platform, Log, commit_if,
}
use ferumind.Operations.Sweep.{
  expired_ids, sweep_expired_proposals, mark_operation_state, mark_stale_proposals,
}
use ferumind.Text.Chars.{codes}
use ferumind.Runtime.Json.{contains}
use ferumind.Operations.Record.{
  entry_of, proposal_ttl, proposal_op_types, Entry, Proposal, insert_row, check_pending_limits,
  or_audit_id, record_operation, new_proposal_id, record_proposal,
}
use ferumind.Operations.Follows.{
  Extends, Extends-refl, Extends-trans, Extends-append, mark_rows-Updates, expire_all-Updates,
  Updates-Extends, stale_rows-Updates,
}

-- The steps behind a run keep what it keeps.
continue-Extends {ℓ κ} :
    {A : Type ℓ} {B : Type κ} (rows : List Row) (run : Log × Result A) (next : A → Action B)
    → Extends rows run.0.operations
    → ((value : A) (log : Log) → Extends log.operations (next value log).0.operations)
    → Extends rows (continue run next).0.operations
continue-Extends rows (log, err exception) next h k = h
continue-Extends rows (log, ok value) next h k = Extends-trans rows log.operations _ h (k value log)

pub sweep-Extends :
    (platform : Platform) (project_key : Text) (commit : Bool) (log : Log)
    → Extends log.operations (sweep_expired_proposals platform project_key commit log).0.operations
unfolding sweep_expired_proposals
sweep-Extends platform project_key commit log =
    elim (Result-cases
      (expired_ids platform project_key (platform.clock log.readings) log.operations)) [
        | inl (exception, e) ↦ ground (arith, e, Extends-refl log.operations)
        | inr (ids, e) ↦
            ground
              (arith, e, Updates-Extends log.operations _ (expire_all-Updates ids log.operations))
      ]

pub insert_row-Extends :
    (row : Row) (log : Log) → Extends log.operations (insert_row row log).0.operations
unfolding insert_row
insert_row-Extends row log =
    ground (arith, Extends-append log.operations (row ∷ []), Extends-refl log.operations)

pub mark-Extends :
    (id : Text) (to_state : State) (commit : Bool) (log : Log)
    → is_pending to_state ≡ false
    → Extends log.operations (mark_operation_state id to_state commit log).0.operations
unfolding mark_operation_state
mark-Extends id to_state commit log h =
    ground
      (arith, Updates-Extends log.operations _ (mark_rows-Updates id to_state log.operations h))

pub mark_stale-Extends :
    (project_key target_path : Text) (current_sha256 : Option Text) (log : Log)
    → Extends log.operations
        (mark_stale_proposals project_key target_path current_sha256 log).0.operations
unfolding mark_stale_proposals
mark_stale-Extends p t c log =
    Updates-Extends log.operations _ (stale_rows-Updates p t c log.operations)

check-Extends :
    (platform : Platform) (entry : Entry) (text : Text) (log : Log)
    → Extends log.operations (check_pending_limits platform entry text log).0.operations
unfolding check_pending_limits
check-Extends platform entry text log =
    ground (arith, sweep-Extends platform entry.project_key entry.commit log)

-- The limits of an entry, where it has any.
if_check-Extends :
    (platform : Platform) (b : Bool) (entry : Entry) (text : Text) (log : Log)
    → Extends log.operations
        ((if b then check_pending_limits platform entry text else return tt) log).0.operations
if_check-Extends platform true entry text log = check-Extends platform entry text log
if_check-Extends platform false entry text log = Extends-refl log.operations

or_audit_id-Extends :
    (platform : Platform) (id : Option Text) (log : Log)
    → Extends log.operations (or_audit_id platform id log).0.operations
or_audit_id-Extends platform none log = Extends-refl log.operations
or_audit_id-Extends platform (some []) log = Extends-refl log.operations
or_audit_id-Extends platform (some (c ∷ cs)) log = Extends-refl log.operations

-- A committed insertion.
insert-Extends :
    {A : Type 0} (row : Row) (commit : Bool) (value : A) (log : Log)
    → Extends log.operations
        ((insert_row row >> (commit_if commit >> return value)) log).0.operations
unfolding insert_row
insert-Extends row commit value log =
    ground (arith, Extends-append log.operations (row ∷ []), Extends-refl log.operations)

pub record_operation-Extends :
    (platform : Platform) (entry : Entry) (log : Log)
    → Extends log.operations (record_operation platform entry log).0.operations
unfolding record_operation
record_operation-Extends platform entry log =
    continue-Extends log.operations _ _
      (if_check-Extends platform (is_pending entry.state) entry (platform.dumps entry.request_json)
        log)
      (λ u log₁.
        continue-Extends log₁.operations (or_audit_id platform entry.operation_id log₁) _
          (or_audit_id-Extends platform entry.operation_id log₁)
          (λ op_id log₂.
            insert-Extends _ entry.commit op_id (record log₂ { readings = suc log₂.readings })))

-- The entry of a proposal, and the log that records it.
abbrev pub proposal_entry : Platform → Proposal → Log → Entry
proposal_entry platform proposal log =
    entry_of platform proposal (platform.isoformat (platform.clock log.readings + proposal_ttl))
      (codes "op_" ++ platform.token_urlsafe log.draws)

abbrev pub proposal_log : Log → Log
proposal_log log = record log { readings = suc log.readings; draws = suc log.draws }

pub record_proposal-Extends :
    (platform : Platform) (proposal : Proposal) (log : Log)
    → Extends log.operations (record_proposal platform proposal log).0.operations
unfolding record_proposal new_proposal_id
record_proposal-Extends platform proposal log =
    elim (Bool-cases (contains proposal_op_types proposal.operation_type)) [
      | inl e ↦ rw e (
          continue-Extends log.operations
            (record_operation platform (proposal_entry platform proposal log) (proposal_log log)) _
            (record_operation-Extends platform (proposal_entry platform proposal log)
              (proposal_log log))
            (λ op_id later. Extends-refl later.operations))
      | inr e ↦ rw e (Extends-refl log.operations)
    ]

-- The functions of core/operations.py that write, run on a connection. A state is marked by another
-- one than `pending`, which no caller asks for.
pub data Write (platform : Platform) (log : Log) : Log → Type 0 where
  recorded : (entry : Entry) → Write platform log (record_operation platform entry log).0
  proposed : (proposal : Proposal) → Write platform log (record_proposal platform proposal log).0
  swept :
      (project_key : Text) (commit : Bool)
      → Write platform log (sweep_expired_proposals platform project_key commit log).0
  marked :
      (operation_id : Text) (to_state : State) (commit : Bool)
      → is_pending to_state ≡ false
      → Write platform log (mark_operation_state operation_id to_state commit log).0
  marked_stale :
      (project_key target_path : Text) (current_sha256 : Option Text)
      → Write platform log (mark_stale_proposals project_key target_path current_sha256 log).0

-- Writes one after the other.
pub data Writes (platform : Platform) (log : Log) : Log → Type 0 where
  none_yet : Writes platform log log
  followed_by :
      {between later : Log}
      → Writes platform log between
      → Write platform between later
      → Writes platform log later

Write-Extends :
    {platform : Platform} {log later : Log}
    → Write platform log later
    → Extends log.operations later.operations
Write-Extends {platform = p} {log = log} (recorded entry) = record_operation-Extends p entry log
Write-Extends {platform = p} {log = log} (proposed proposal) =
    record_proposal-Extends p proposal log
Write-Extends {platform = p} {log = log} (swept project_key commit) =
    sweep-Extends p project_key commit log
Write-Extends {log = log} (marked id to_state commit h) = mark-Extends id to_state commit log h
Write-Extends {log = log} (marked_stale p t c) = mark_stale-Extends p t c log

pub Writes-Extends :
    {platform : Platform} {log later : Log}
    → Writes platform log later
    → Extends log.operations later.operations
Writes-Extends {log = log} none_yet = Extends-refl log.operations
Writes-Extends {log = log} {later = later} (followed_by {between = between} run step) =
    Extends-trans log.operations between.operations later.operations (Writes-Extends run)
      (Write-Extends step)
