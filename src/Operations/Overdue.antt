-- ===== src/Operations/Overdue.antt =====
-- An overdue proposal of core/operations.py is expired by the next sweep.
use ferumind.Common.{
  ℕ, ◌≡◌, refl, ap, ◌∙◌, inl, inr, Bool, true, false, ◌&&◌, some, List, [], ◌∷◌, arith, ltb,
  if◌then◌else◌, Bool-cases, Result, ok, length,
}
use ferumind.Text.{Text}
use ferumind.Text.Chars.{text_eq}
use ferumind.Operations.{Row, Platform, Log, expired}
use ferumind.Operations.Rows.{is_pending_of, scrub, find_row}
use ferumind.Operations.Sweep.{parse_expiration, note_expired, expired_ids, sweep_expired_proposals}
use ferumind.Operations.Bounds.{HaveDistinctIds}
use ferumind.Operations.Expiry.{is_overdue, sweep_rows, sweep_expired_proposals_lem}

-- The pending rows of the project have expiries that are read as dates with an offset.
abbrev pub AreReadable : Platform → Text → List Row → Type 0
AreReadable platform project_key [] = Unit
AreReadable platform project_key (row ∷ rows) =
    (is_pending_of project_key row ≡ true
      → (value : Text) × (expires : ℕ) × (row.expires_at ≡ some value)
        × (parse_expiration platform value ≡ ok expires))
    × AreReadable platform project_key rows

expired_ids-ok :
    (platform : Platform) (project_key : Text) (time : ℕ) (rows : List Row)
    → AreReadable platform project_key rows
    → (ids : List Text) × (expired_ids platform project_key time rows ≡ ok ids)
unfolding expired_ids note_expired
expired_ids-ok platform project_key time [] h = ([], refl)
expired_ids-ok platform project_key time (row ∷ rows) (r, h) =
    let (ids, e) = expired_ids-ok platform project_key time rows h in
    elim (Bool-cases (is_pending_of project_key row)) [
      | inr p ↦ (ids, ground (arith, p, e))
      | inl p ↦
          let (value, expires, v, x) = r p in
          ((if ltb expires time then row.id ∷ ids else ids), ground (arith, p, e, v, x))
    ]

scrub_if_id : (b : Bool) (row : Row) → (if b then scrub expired row else row).id ≡ row.id
scrub_if_id true row = refl
scrub_if_id false row = refl

find_row-sweep_rows :
    (platform : Platform) (project_key : Text) (time : ℕ) (id : Text) (rows : List Row) (row : Row)
    → find_row id rows ≡ some row
    → is_pending_of project_key row ≡ true
    → is_overdue platform time row ≡ true
    → find_row id (sweep_rows platform project_key time rows) ≡ some (scrub expired row)
unfolding find_row
find_row-sweep_rows platform project_key time id [] row h p o = cc
find_row-sweep_rows platform project_key time id (x ∷ rows) row h p o =
    elim (Bool-cases (text_eq x.id id)) [
      | inl e ↦
          let same : x ≡ row = ground (arith, h, e) in
          let px : is_pending_of project_key x ≡ true = ap (is_pending_of project_key) same ∙ p in
          let ox : is_overdue platform time x ≡ true = ap (is_overdue platform time) same ∙ o in
          rw (px, ox, e) (ap (λ r. some (scrub expired r)) same)
      | inr e ↦
          let rest =
            find_row-sweep_rows platform project_key time id rows row (ground (arith, h, e)) p o in
          rw (scrub_if_id (is_pending_of project_key x && is_overdue platform time x) x, e) rest
    ]

sweep-ok :
    (platform : Platform) (project_key : Text) (commit : Bool) (log : Log) (ids : List Text)
    → expired_ids platform project_key (platform.clock log.readings) log.operations ≡ ok ids
    → (sweep_expired_proposals platform project_key commit log).1 ≡ ok (length ids)
unfolding sweep_expired_proposals
sweep-ok platform project_key true log ids e = rw e refl
sweep-ok platform project_key false log ids e = rw e refl

-- In a log with distinct ids, where the pending rows of the project have expiries that are read, a
-- sweep returns, and a pending row of the project whose expiry has passed is expired behind it,
-- without its content.
pub sweep_expired_proposals-find_row :
    (platform : Platform) (project_key : Text) (commit : Bool) (log : Log) (id : Text) (row : Row)
    → HaveDistinctIds log.operations
    → AreReadable platform project_key log.operations
    → find_row id log.operations ≡ some row
    → is_pending_of project_key row ≡ true
    → is_overdue platform (platform.clock log.readings) row ≡ true
    → (later : Log) × (marked : ℕ) × (sweep_expired_proposals platform project_key commit log
        ≡ (later, ok marked))
      × (find_row id later.operations ≡ some (scrub expired row))
sweep_expired_proposals-find_row platform project_key commit log id row d r f p o =
    let time = platform.clock log.readings in
    let (ids, e) =
      expired_ids-ok platform project_key (platform.clock log.readings) log.operations r in
    let run = sweep_expired_proposals platform project_key commit log in
    let ended : sweep_expired_proposals platform project_key commit log ≡ (run.0, ok (length ids)) =
      ap (λ (end : Result ℕ). (run.0, end)) (sweep-ok platform project_key commit log ids e) in
    let rows =
      sweep_expired_proposals_lem platform project_key commit log run.0 (length ids) d ended in
    (
      run.0,
      length ids,
      ended,
      ap (find_row id) rows
          ∙ find_row-sweep_rows platform project_key (platform.clock log.readings) id log.operations
              row f p o,
    )
