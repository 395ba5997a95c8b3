-- ===== src/Proposals.antt =====
-- core/patch_writes.py: the hash checks of a proposal, its lookup, its state, and its discard. The
-- project lock, which these calls hold, has no counterpart: a call is one step.
pub mod FieldLines
pub mod FullMode
pub mod Verify
pub mod Lookup
pub mod Discard
pub mod Claim
pub mod Managed
use ferumind.Common.{
  ℕ, zero, suc, ◌+◌, ◌-◌, ◌*◌, ◌/◌, ◌%◌, ◌≤◌, ◌<◌, min, max, ◌≡◌, refl, sym, ap, ap₂, ◌∙◌, subst,
  ◌≡⟨◌⟩◌, ◌∎, ◌≢◌, ◌↔◌, ◌⊎◌, inl, inr, Bool, true, false, not, ◌&&◌, ◌||◌, Option, none, some, List,
  [], ◌∷◌, ◌++◌, map, append-nil, append_assoc, arith, ltb, leb, ◌==◌, if◌then◌else◌, ==_iff,
  ==_refl, leb→le, ltb→lt, Bool-cases, Option-cases, ok_injective, Result-cases, if_elim, is_none,
  ℤ, pos, negsuc, int_lt, to_nat, Kind, Error, Result, ok, err, raise, raise_if, raise_at,
  raise_at_if, translate, length, get_elem?, get_or, set, take, drop, length-append,
  take-append-drop, length-take, length-drop, take-append_length, drop-append_length, drop-nil,
  take-nil, take_all, drop_all, drop-suc-drop, take_of_append, drop_of_append, drop-drop,
  take-append-lt, drop-append-lt, filter, get_last?, run_length, run_length-le, filter-append,
}
use ferumind.Text.{Text}
use ferumind.Text.Chars.{text_eq}
use ferumind.Runtime.Json.{contains}
use ferumind.Paths.{Filesystem, Location, contained_project_root}
use ferumind.Operations.{
  State, pending, applied, discarded, stale, expired, failed, is_pending, OperationRecord, Platform,
  Action, ◌>>=◌, ◌>>◌, return, lift, refuse_if,
}
use ferumind.Operations.Fetch.{get_operation}
use ferumind.Operations.Record.{proposal_op_types}
use ferumind.Operations.Sweep.{is_expired, mark_operation_state}

unfoldable pub check_expected_document_hash : Text → Option Text → Result (Unit {0})
unfolding text_eq
check_expected_document_hash current none = ok tt
check_expected_document_hash current (some expected) =
    raise_if (not (text_eq current expected)) Kind.patch_conflict

unfoldable pub check_expected_target_hash : Option Text → Option Text → Result (Unit {0})
unfolding text_eq
check_expected_target_hash none expected = ok tt
check_expected_target_hash (some actual) none = ok tt
check_expected_target_hash (some actual) (some expected) =
    raise_if (not (text_eq actual expected)) Kind.target_hash_mismatch

-- DiscardPatchResult; its state is always `discarded`.
pub record DiscardPatchResult : Type 0 where
  pub operation_id : Text
  pub path : Option Text

-- The type and the project of a proposal.
unfoldable pub check_proposal : Text → OperationRecord → Action OperationRecord
unfolding contains text_eq
check_proposal project_key op = do
  refuse_if (not (contains proposal_op_types op.operation_type)) Kind.invalid_operation
  refuse_if (not (text_eq op.project_key project_key)) Kind.patch_project_mismatch
  return op

-- The refusals of apply_patch for a state.
unfoldable pub check_applicable : State → Result (Unit {0})
check_applicable pending = ok tt
check_applicable expired = raise Kind.patch_expired
check_applicable stale = raise Kind.patch_conflict
check_applicable _ = raise Kind.invalid_operation

module _ (platform : Platform) where
  unfoldable pub get_proposal_for_action : Text → Text → Action OperationRecord
  unfolding get_operation check_proposal
  get_proposal_for_action project_key operation_id = do
    found ← get_operation platform operation_id
    elim found [
      | none ↦ lift (raise Kind.operation_not_found)
      | some op ↦ check_proposal project_key op
    ]

  -- Whether a pending proposal is expired; others are not asked.
  abbrev pub is_overdue_proposal : OperationRecord → Action Bool
  is_overdue_proposal op = if is_pending op.state then is_expired platform op none else return false

  -- apply_patch, up to the target: a proposal that has run out is marked as expired.
  unfoldable pub claim_for_apply : Text → Text → Action OperationRecord
  unfolding get_proposal_for_action is_expired mark_operation_state check_applicable
  claim_for_apply project_key operation_id = do
    op ← get_proposal_for_action project_key operation_id
    overdue ← is_overdue_proposal op
    if overdue then mark_operation_state operation_id expired true else return tt
    lift (check_applicable (if overdue then expired else op.state))
    return op

  unfoldable pub discard_patch : Filesystem → Location → Text → Text → Action DiscardPatchResult
  unfolding get_proposal_for_action mark_operation_state contained_project_root
  discard_patch filesystem workspace_root project_key operation_id = do
    project_dir ← lift (contained_project_root filesystem workspace_root project_key)
    op ← get_proposal_for_action project_key operation_id
    refuse_if (not (is_pending op.state)) Kind.invalid_operation
    mark_operation_state operation_id discarded true
    return (record { operation_id = operation_id; path = op.target_path })
