-- ===== src/Proposals/Claim.antt =====
-- Which proposals core/patch_writes.py applies.
use ferumind.Common.{
  ℕ, ◌≤◌, ◌≡◌, refl, sym, ap, ◌∙◌, subst, inl, inr, Bool, true, false, Option, none, some, arith,
  if◌then◌else◌, Option-cases, Result-cases, ok,
}
use ferumind.Text.{Text}
use ferumind.Runtime.Json.{JsonObject}
use ferumind.Operations.{
  State, pending, applied, discarded, stale, expired, failed, Row, OperationRecord, Platform, Log,
  >>=-eq-ok, ◌>>◌, return, lift,
}
use ferumind.Operations.Sweep.{mark_operation_state, parse_expiration, is_expired}
use ferumind.Proposals.{
  get_proposal_for_action, is_overdue_proposal, check_applicable, claim_for_apply,
}
use ferumind.Proposals.Lookup.{IsProposalRow, get_proposal_for_action-ok}

-- The expiry is read, and it has not passed.
abbrev pub IsCurrent : Platform → Option Text → ℕ → Type 0
IsCurrent platform expires_at time =
    (value : Text) × (expires : ℕ) × (expires_at ≡ some value)
    × (parse_expiration platform value ≡ ok expires)
    × (time ≤ expires)

-- The rows and the last commit are the same.
abbrev pub HasSameRows : Log → Log → Type 0
HasSameRows log later = (later.operations ≡ log.operations) × (later.saved ≡ log.saved)

is_expired-false :
    (platform : Platform) (op : OperationRecord) (log later : Log)
    → op.state ≡ pending
    → is_expired platform op none log ≡ (later, ok false)
    → HasSameRows log later × IsCurrent platform op.expires_at (platform.clock log.readings)
unfolding is_expired
is_expired-false platform op log later s h = elim (Option-cases op.expires_at) [
  | inl e ↦ ground (arith, h, e, s)
  | inr (value, e) ↦ elim (Result-cases (parse_expiration platform value)) [
    | inl (exception, d) ↦ ground (arith, h, e, d)
    | inr (expires, d) ↦ (
      (ground (arith, h, e, d), ground (arith, h, e, d)),
      (value, expires, e, d, ground (arith, h, e, d)),
    )
  ]
]

-- The steps of a claim behind the question whether the proposal has run out.
admitted-ok :
    (overdue : Bool) (op_state : State) (op : OperationRecord) (id : Text) (log : Log) {later : Log}
    {last : OperationRecord}
    → ((if overdue then mark_operation_state id expired true else return tt)
          >> (lift (check_applicable (if overdue then expired else op_state)) >> return op))
        log
      ≡ (later, ok last)
    → (overdue ≡ false) × (op_state ≡ pending) × (log ≡ later) × (op ≡ last)
unfolding mark_operation_state check_applicable
admitted-ok true op_state op id log h = cc
admitted-ok false pending op id log h = (refl, refl, cc, cc)
admitted-ok false applied op id log h = cc
admitted-ok false discarded op id log h = cc
admitted-ok false stale op id log h = cc
admitted-ok false expired op id log h = cc
admitted-ok false failed op id log h = cc

asked-false :
    (platform : Platform) (op : OperationRecord) (log later : Log) (overdue : Bool)
    → op.state ≡ pending
    → overdue ≡ false
    → is_overdue_proposal platform op log ≡ (later, ok overdue)
    → is_expired platform op none log ≡ (later, ok false)
asked-false platform op log later overdue s o h = ground (arith, h, s, o)

-- Where a proposal is admitted to be applied, it is a row of the log, of a known type and of the
-- project, that is pending and whose expiry is read and has not passed; and neither the rows nor
-- the last commit have changed.
pub claim_for_apply_lem :
    (platform : Platform) (project_key id : Text) (log later : Log) (op : OperationRecord)
    → claim_for_apply platform project_key id log ≡ (later, ok op)
    → HasSameRows log later
      × IsCurrent platform op.expires_at (platform.clock log.readings)
      × (op.state ≡ pending)
      × ((row : Row) × (request : JsonObject) × IsProposalRow platform project_key id log op row
            request)
unfolding claim_for_apply
claim_for_apply_lem platform project_key id log later op h =
    let (looked, found, g, h₁) =
      >>=-eq-ok (get_proposal_for_action platform project_key id) _ log h in
    let (asked, overdue, a, h₂) = >>=-eq-ok (is_overdue_proposal platform found) _ looked h₁ in
    let (early, waits, stays, same) = admitted-ok overdue found.state found id asked h₂ in
    let (unread, shape) = get_proposal_for_action-ok platform project_key id log g in
    let (rows, current) =
      is_expired-false platform found looked asked waits
        (asked-false platform found looked asked overdue waits early a) in
    (
      (
        ap (λ (l : Log). l.operations) (sym stays)
            ∙ rows.0
            ∙ ap (λ (l : Log). l.operations) (sym unread),
        ap (λ (l : Log). l.saved) (sym stays) ∙ rows.1 ∙ ap (λ (l : Log). l.saved) (sym unread),
      ),
      subst (λ (o : OperationRecord). IsCurrent platform o.expires_at (platform.clock log.readings))
          same
          (subst (λ (l : Log). IsCurrent platform found.expires_at (platform.clock l.readings))
            (sym unread) current),
      ap (λ (o : OperationRecord). o.state) (sym same) ∙ waits,
      subst
          (λ (o : OperationRecord).
            (row : Row) × (request : JsonObject) × IsProposalRow platform project_key id log o row
              request)
          same shape,
    )
