-- ===== src/Operations.antt =====
-- core/operations.py: the rows of the operation log, the connection that reads and writes them, and
-- the platform behind it. db/schema.sql gives the columns.
pub mod Rows
pub mod Sweep
pub mod Record
pub mod Fetch
pub mod Follows
pub mod Writes
pub mod Bounds
pub mod Kept
pub mod Admitted
pub mod Reach
pub mod Trail
pub mod Expiry
pub mod RoundTrip
pub mod Overdue
use ferumind.Common.{
  ℕ, suc, ◌≡◌, refl, Bool, true, false, Option, List, Kind, Error, Result, err, ok, none,
}
use ferumind.Text.{Text}
use ferumind.Runtime.Json.{Value, JsonObject}

-- The states of OP_STATES. The models take no other text, so the `ValueError` for one has no
-- counterpart.
pub data State : Type 0 where
  pending applied discarded stale expired failed : State

-- state == OP_PENDING
abbrev pub is_pending : State → Bool
is_pending pending = true
is_pending _ = false

-- A row of the table `operations`.
pub record Row : Type 0 where
  pub id : Text
  pub project_key : Text
  pub operation_type : Text
  pub tool_name : Option Text
  pub target_path : Option Text
  pub source : Text
  pub request_json : Text
  pub base_sha256 : Option Text
  pub after_sha256 : Option Text
  pub diff_text : Option Text
  pub snapshot_id : Option Text
  pub state : State
  pub created_at : Text
  pub expires_at : Option Text

-- OperationRecord: a row with its request decoded.
pub record OperationRecord : Type 0 where
  pub id : Text
  pub project_key : Text
  pub operation_type : Text
  pub tool_name : Option Text
  pub target_path : Option Text
  pub source : Text
  pub request_json : JsonObject
  pub base_sha256 : Option Text
  pub after_sha256 : Option Text
  pub diff_text : Option Text
  pub snapshot_id : Option Text
  pub state : State
  pub created_at : Text
  pub expires_at : Option Text

-- A `datetime`: with no offset, or the microseconds of its instant.
pub data Datetime : Type 0 where
  naive : Datetime
  aware : ℕ → Datetime

-- json, datetime, secrets and uuid. The clock and the random ids are read one after the other.
pub record Platform : Type 0 where
  pub dumps : JsonObject → Text
  -- `none` for a `JSONDecodeError`
  pub loads : Text → Option Value
  -- `none` for a `ValueError`
  pub fromisoformat : Text → Option Datetime
  pub isoformat : ℕ → Text
  pub clock : ℕ → ℕ
  pub token_urlsafe : ℕ → Text
  pub uuid4 : ℕ → Text

-- A connection: the rows that it reads, the rows that its last commit published, and how often the
-- clock and the random ids have been read.
pub record Log : Type 0 where
  pub operations : List Row
  pub saved : List Row
  pub readings : ℕ
  pub draws : ℕ

-- Code that runs on a connection. What it wrote before an exception stays written.
abbrev pub Action {ℓ} : Type ℓ → Type ℓ
Action A = Log → Log × Result A

abbrev pub continue {ℓ κ} :
    {A : Type ℓ} {B : Type κ} → Log × Result A → (A → Action B) → Log × Result B
continue (log, err exception) next = (log, err exception)
continue (log, ok value) next = next value log

infixl 5 ◌>>=◌
abbrev pub ◌>>=◌ {ℓ κ} : {A : Type ℓ} {B : Type κ} → Action A → (A → Action B) → Action B
(first >>= next) log = continue (first log) next

infixl 5 ◌>>◌
abbrev pub ◌>>◌ {ℓ κ} : {A : Type ℓ} {B : Type κ} → Action A → Action B → Action B
first >> next = first >>= (λ value. next)

abbrev pub return {ℓ} : {A : Type ℓ} → A → Action A
return a log = (log, ok a)

-- A computation that does not use the connection.
abbrev pub lift {ℓ} : {A : Type ℓ} → Result A → Action A
lift result log = (log, result)

abbrev pub refuse_if : Bool → Kind → Action (Unit {0})
refuse_if true k log = (log, err (record { kind = k; edit_index = none }))
refuse_if false k log = (log, ok tt)

-- SELECT
abbrev pub fetch_rows : Action (List Row)
fetch_rows log = (log, ok log.operations)

-- INSERT or UPDATE
abbrev pub write_rows : List Row → Action (Unit {0})
write_rows rows log = (record log { operations = rows }, ok tt)

-- if commit: conn.commit()
abbrev pub commit_if : Bool → Action (Unit {0})
commit_if true log = (record log { saved = log.operations }, ok tt)
commit_if false log = (log, ok tt)

-- conn.rollback()
abbrev pub rollback : Log → Log
rollback log = record log { operations = log.saved }

module _ (platform : Platform) where
  -- _now
  abbrev pub now : Action ℕ
  now log = (record log { readings = suc log.readings }, ok (platform.clock log.readings))

  -- secrets.token_urlsafe(24)
  abbrev pub draw_token : Action Text
  draw_token log = (record log { draws = suc log.draws }, ok (platform.token_urlsafe log.draws))

  -- new_audit_id
  abbrev pub new_audit_id : Action Text
  new_audit_id log = (record log { draws = suc log.draws }, ok (platform.uuid4 log.draws))

continue-eq-ok {ℓ κ} :
    {A : Type ℓ} {B : Type κ} (run : Log × Result A) (next : A → Action B) {end : Log} {last : B}
    → continue run next ≡ (end, ok last)
    → (between : Log) × (value : A) × (run ≡ (between, ok value))
      × (next value between ≡ (end, ok last))
continue-eq-ok (log, err exception) next h = cc
continue-eq-ok (log, ok value) next h = (log, value, refl, h)

-- Steps that end in a value: the first one has a value, and the next one ends in theirs from it.
pub >>=-eq-ok {ℓ κ} :
    {A : Type ℓ} {B : Type κ} (first : Action A) (next : A → Action B) (log : Log) {end : Log}
    {last : B}
    → (first >>= next) log ≡ (end, ok last)
    → (between : Log) × (value : A) × (first log ≡ (between, ok value))
      × (next value between ≡ (end, ok last))
>>=-eq-ok first next log h = continue-eq-ok (first log) next h
