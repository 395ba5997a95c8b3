-- ===== src/Operations/Sweep.antt =====
-- core/operations.py: expiry, and the statements that mark proposals.
use ferumind.Common.{
  ℕ, Bool, true, false, Option, none, some, List, [], ◌∷◌, ltb, if◌then◌else◌, Kind, Result, ok,
  err, raise, length,
}
use ferumind.Text.{Text}
use ferumind.Operations.{
  State, is_pending, Row, OperationRecord, Datetime, naive, aware, Platform, Action, ◌>>=◌, ◌>>◌,
  return, lift, fetch_rows, write_rows, commit_if, now,
}
use ferumind.Operations.Rows.{is_pending_of, mark_rows, expire_all, stale_rows, stale_count}

module _ (platform : Platform) where
  -- _parse_expiration
  unfoldable pub parse_expiration : Text → Result ℕ
  parse_expiration value = elim (platform.fromisoformat value) [
    | none ↦ raise Kind.invalid_operation
    | some moment ↦ elim moment [
      | naive ↦ raise Kind.invalid_operation
      | aware expires ↦ ok expires
    ]
  ]

  -- The comparison of is_expired.
  abbrev pub is_past : Datetime → ℕ → Result Bool
  is_past naive expires = raise Kind.invalid_operation
  is_past (aware time) expires = ok (ltb expires time)

  -- now or _now()
  abbrev pub or_now : Option Datetime → Action Datetime
  or_now (some time) = return time
  or_now none = do time ← now platform; return (aware time)

  unfoldable pub is_expired : OperationRecord → Option Datetime → Action Bool
  unfolding parse_expiration
  is_expired operation time = elim operation.expires_at [
    | none ↦
        if is_pending operation.state then lift (raise Kind.invalid_operation) else return false
    | some value ↦ do
      expires ← lift (parse_expiration value)
      comparison_time ← or_now time
      lift (is_past comparison_time expires)
  ]

  -- One row of the sweep, in front of the ids of the later rows.
  unfoldable pub note_expired : ℕ → Row → Result (List Text) → Result (List Text)
  unfolding parse_expiration
  note_expired time row later = elim row.expires_at [
    | none ↦ raise Kind.invalid_operation
    | some value ↦ elim (parse_expiration value) [
      | err exception ↦ err exception
      | ok expires ↦ elim later [
        | err exception ↦ err exception
        | ok ids ↦ ok (if ltb expires time then row.id ∷ ids else ids)
      ]
    ]
  ]

  -- The ids of the pending rows of a project that are past their expiry.
  unfoldable pub expired_ids : Text → ℕ → List Row → Result (List Text)
  unfolding note_expired
  expired_ids project_key time [] = ok []
  expired_ids project_key time (row ∷ rows) =
      let later = expired_ids project_key time rows in
      if is_pending_of project_key row then note_expired time row later else later

  unfoldable pub sweep_expired_proposals : Text → Bool → Action ℕ
  unfolding expired_ids expire_all
  sweep_expired_proposals project_key commit = do
    time ← now platform
    rows ← fetch_rows
    ids ← lift (expired_ids project_key time rows)
    write_rows (expire_all ids rows)
    commit_if commit
    return (length ids)

unfoldable pub mark_operation_state : Text → State → Bool → Action (Unit {0})
unfolding mark_rows
mark_operation_state operation_id to_state commit = do
  rows ← fetch_rows
  write_rows (mark_rows operation_id to_state rows)
  commit_if commit

unfoldable pub mark_stale_proposals : Text → Text → Option Text → Action ℕ
unfolding stale_rows stale_count
mark_stale_proposals project_key target_path current_sha256 = do
  rows ← fetch_rows
  write_rows (stale_rows project_key target_path current_sha256 rows)
  commit_if true
  return (stale_count project_key target_path current_sha256 rows)
