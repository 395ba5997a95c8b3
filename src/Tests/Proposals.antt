-- ===== src/Tests/Proposals.antt =====
-- Runs of the operation log: a proposal is recorded, fetched, applied, and swept.
use ferumind.Common.{ℕ, ◌+◌, ◌≡◌, refl, true, Option, none, some, [], ◌∷◌, ◌++◌, arith, ok}
use ferumind.Text.{Text}
use ferumind.Text.Chars
use ferumind.Text.Chars.{codes}
use ferumind.Runtime.Json
use ferumind.Runtime.Json.{object, field, end, str, JsonObject}
use ferumind.Operations.{Row, OperationRecord, Platform, Log, Datetime, naive, aware, applied}
use ferumind.Operations.Rows
use ferumind.Operations.Rows.{find_row}
use ferumind.Operations.Sweep
use ferumind.Operations.Sweep.{sweep_expired_proposals, mark_operation_state}
use ferumind.Operations.Record
use ferumind.Operations.Record.{Proposal, record_proposal, proposal_ttl}
use ferumind.Operations.Fetch
use ferumind.Operations.Fetch.{get_operation}
use ferumind.Operations.Rows.{find_row}
use ferumind.Operations.Sweep.{sweep_expired_proposals, mark_operation_state}
use ferumind.Operations.Record.{row_of}
use ferumind.Operations.Follows.{Follows}
use ferumind.Operations.Writes.{none_yet, followed_by, marked, proposed, proposal_entry}
use ferumind.Operations.Kept.{IsLog}
use ferumind.Operations.Reach.{here, behind, write, Reach-IsLog}
use ferumind.Operations.Trail.{Writes-find_row}
use ferumind.Operations.Expiry.{sweep_rows, sweep_expired_proposals_lem}
use ferumind.Operations.{expired}
use ferumind.Operations.Rows.{scrub}
use ferumind.Operations.Overdue.{sweep_expired_proposals-find_row}
use ferumind.Operations.RoundTrip.{IsReadBack, IsOperationOf, record_proposal-get_operation}

abbrev pub request : JsonObject
request = (codes "content", str (codes "text")) ∷ []

-- A text of one character is a time.
abbrev read_time : Text → Option Datetime
read_time [] = none
read_time (c ∷ []) = some (aware c)
read_time (c ∷ d ∷ ds) = some naive

-- The clock goes a minute at each reading.
abbrev pub platform : Platform
platform = record {
  dumps = λ d. codes "{content: text}";
  loads = λ t. some (object (field (codes "content") (str (codes "text")) end));
  fromisoformat = read_time;
  isoformat = λ n. n ∷ [];
  clock = λ n. n + n;
  token_urlsafe = λ n. n ∷ [];
  uuid4 = λ n. n ∷ [];
}

abbrev proposal : Proposal
proposal = record {
  project_key = codes "p";
  operation_type = codes "propose_patch";
  target_path = codes "a.md";
  request_json = request;
  base_sha256 = some (codes "old");
  after_sha256 = codes "new";
  diff_text = codes "diff";
}

abbrev empty_log : Log
empty_log = record { operations = []; saved = []; readings = 0; draws = 0 }

abbrev pub recorded_log : Log
recorded_log = (record_proposal platform proposal empty_log).0

-- Whatever unfolds this unfolds core/operations.py.
unfoldable pub logging : Unit {0}
unfolding Chars.text_eq Chars.utf8_length Json.contains Rows.pending_count Rows.pending_bytes
    Rows.has_id Rows.find_row Rows.mark_rows Rows.expire_rows Rows.expire_all Rows.stale_rows
    Rows.stale_count Sweep.parse_expiration Sweep.is_expired Sweep.note_expired Sweep.expired_ids
    Sweep.sweep_expired_proposals Sweep.mark_operation_state Sweep.mark_stale_proposals
    Record.insert_row Record.check_pending_limits Record.record_operation Record.new_proposal_id
    Record.record_proposal Fetch.coerce_json_object Fetch.decode_request Fetch.row_to_operation
    Fetch.get_operation
logging = tt

request_IsReadBack : IsReadBack platform request
unfolding logging
request_IsReadBack = record {
  fields = field (codes "content") (str (codes "text")) end;
  nonempty = refl;
  reads = refl;
  same = refl;
}

record_proposal_example :
    (operation : OperationRecord) × (get_operation platform (codes "op_" ++ (0 ∷ [])) recorded_log
      ≡ (recorded_log, ok (some operation)))
    × IsOperationOf proposal (codes "op_" ++ (0 ∷ [])) (proposal_ttl ∷ []) operation
    × (proposal_ttl ∷ [] ≡ proposal_ttl ∷ [])
unfolding logging
record_proposal_example =
    record_proposal-get_operation platform proposal empty_log recorded_log (codes "op_" ++ (0 ∷ []))
      (proposal_ttl ∷ []) request_IsReadBack refl

abbrev pub recorded_row : Row
recorded_row =
    row_of (proposal_entry platform proposal empty_log) (codes "{content: text}")
      (codes "op_" ++ (0 ∷ [])) (4 ∷ [])

abbrev applied_log : Log
applied_log = (mark_operation_state (codes "op_" ++ (0 ∷ [])) applied true recorded_log).0

Writes-find_row_example :
    (next : Row) × (find_row (codes "op_" ++ (0 ∷ [])) applied_log.operations ≡ some next)
    × Follows recorded_row next
unfolding logging
Writes-find_row_example =
    Writes-find_row {platform = platform} {log = recorded_log} {later = applied_log}
      (codes "op_" ++ (0 ∷ [])) recorded_row
      (followed_by none_yet (marked (codes "op_" ++ (0 ∷ [])) applied true refl)) refl

empty_IsLog : IsLog empty_log
unfolding logging
empty_IsLog = ((tt, λ p. (omega arith, omega arith)), (tt, λ p. (omega arith, omega arith)))

Reach-IsLog_example : IsLog recorded_log
Reach-IsLog_example =
    Reach-IsLog {platform = platform} {log = empty_log} {later = recorded_log}
      (behind here (write (proposed proposal))) empty_IsLog

-- Two days later.
abbrev late_log : Log
late_log = record recorded_log { readings = proposal_ttl }

abbrev swept_log : Log
swept_log = (sweep_expired_proposals platform (codes "p") true late_log).0

sweep_expired_proposals_example :
    swept_log.operations
    ≡ sweep_rows platform (codes "p") (proposal_ttl + proposal_ttl) (recorded_row ∷ [])
unfolding logging
sweep_expired_proposals_example =
    sweep_expired_proposals_lem platform (codes "p") true late_log swept_log 1 (refl, tt) refl

sweep_expired_proposals-find_row_example :
    (later : Log) × (marked : ℕ) × (sweep_expired_proposals platform (codes "p") true late_log
      ≡ (later, ok marked))
    × (find_row (codes "op_" ++ (0 ∷ [])) later.operations ≡ some (scrub expired recorded_row))
unfolding logging
sweep_expired_proposals-find_row_example =
    sweep_expired_proposals-find_row platform (codes "p") true late_log (codes "op_" ++ (0 ∷ []))
      recorded_row (refl, tt) ((λ p. (proposal_ttl ∷ [], proposal_ttl, refl, refl)), tt) refl refl
      refl
