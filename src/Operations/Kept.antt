-- ===== src/Operations/Kept.antt =====
-- The functions of core/operations.py that sweep and mark keep the ids of the log distinct, and its limits.
use ferumind.Common.{
  ℕ, suc, ◌≡◌, refl, inl, inr, Bool, true, false, Option, List, Result-cases, Result, ok, err,
  length,
}
use ferumind.Text.{Text}
use ferumind.Operations.{
  State, is_pending, Row, Platform, Log, Action, continue, ◌>>◌, return, commit_if,
}
use ferumind.Operations.Rows.{expire_all, mark_rows, stale_rows}
use ferumind.Operations.Sweep.{
  expired_ids, sweep_expired_proposals, mark_operation_state, mark_stale_proposals,
}
use ferumind.Operations.Follows.{Updates, mark_rows-Updates, expire_all-Updates, stale_rows-Updates}
use ferumind.Operations.Bounds.{IsTable, Updates-IsTable}

-- The rows that a connection reads, and those that it has committed.
abbrev pub IsLog : Log → Type 0
IsLog log = IsTable log.operations × IsTable log.saved

pub continue-IsLog {ℓ κ} :
    {A : Type ℓ} {B : Type κ} (run : Log × Result A) (next : A → Action B)
    → IsLog run.0
    → ((value : A) (log : Log) → run ≡ (log, ok value) → IsLog log → IsLog (next value log).0)
    → IsLog (continue run next).0
continue-IsLog (log, err exception) next h k = h
continue-IsLog (log, ok value) next h k = k value log refl h

pub commit-IsLog {ℓ} :
    {A : Type ℓ} (commit : Bool) (value : A) (log : Log)
    → IsLog log
    → IsLog ((commit_if commit >> return value) log).0
commit-IsLog true value log (t, s) = (t, t)
commit-IsLog false value log h = h

-- An update of the rows, and a commit where one is asked for.
pub update-IsLog {ℓ} :
    {A : Type ℓ} (commit : Bool) (value : A) (rows : List Row) (log : Log)
    → IsLog log
    → Updates log.operations rows
    → IsLog ((commit_if commit >> return value) (record log { operations = rows })).0
update-IsLog commit value rows log (t, s) u =
    commit-IsLog commit value (record log { operations = rows })
      (Updates-IsTable log.operations rows u t, s)

pub sweep-IsLog :
    (platform : Platform) (project_key : Text) (commit : Bool) (log : Log)
    → IsLog log
    → IsLog (sweep_expired_proposals platform project_key commit log).0
unfolding sweep_expired_proposals
sweep-IsLog platform project_key commit log h =
    elim (Result-cases
      (expired_ids platform project_key (platform.clock log.readings) log.operations)) [
        | inl (exception, e) ↦ rw e h
        | inr (ids, e) ↦ rw e (
            update-IsLog commit (length ids) (expire_all ids log.operations)
              (record log { readings = suc log.readings }) h
              (expire_all-Updates ids log.operations))
      ]

pub mark-IsLog :
    (id : Text) (to_state : State) (commit : Bool) (log : Log)
    → is_pending to_state ≡ false
    → IsLog log
    → IsLog (mark_operation_state id to_state commit log).0
unfolding mark_operation_state
mark-IsLog id to_state true log h i =
    update-IsLog {A = Unit {0}} true tt (mark_rows id to_state log.operations) log i
      (mark_rows-Updates id to_state log.operations h)
mark-IsLog id to_state false log h i =
    update-IsLog {A = Unit {0}} false tt (mark_rows id to_state log.operations) log i
      (mark_rows-Updates id to_state log.operations h)

pub mark_stale-IsLog :
    (project_key target_path : Text) (current_sha256 : Option Text) (log : Log)
    → IsLog log
    → IsLog (mark_stale_proposals project_key target_path current_sha256 log).0
unfolding mark_stale_proposals
mark_stale-IsLog p t c log h =
    update-IsLog {A = ℕ} true 0 (stale_rows p t c log.operations) log h
      (stale_rows-Updates p t c log.operations)
