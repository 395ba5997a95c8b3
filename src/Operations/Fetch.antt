-- ===== src/Operations/Fetch.antt =====
-- core/operations.py: get_operation, and a row decoded.
use ferumind.Common.{Option, none, some, [], ◌∷◌, if◌then◌else◌, Kind, Result, ok, err, raise}
use ferumind.Text.{Text}
use ferumind.Text.Chars.{is_empty}
use ferumind.Runtime.Json.{Value, object, Fields, end, field, JsonObject}
use ferumind.Operations.{Row, OperationRecord, Platform, Action, ◌>>=◌, lift, return, fetch_rows}
use ferumind.Operations.Rows.{find_row}

-- The entries of a decoded dict.
abbrev pub entries : Fields → JsonObject
entries end = []
entries (field key value rest) = (key, value) ∷ entries rest

-- _coerce_json_object: the keys of decoded JSON are texts.
unfoldable pub coerce_json_object : Value → Option JsonObject
coerce_json_object (object fields) = some (entries fields)
coerce_json_object _ = none

-- A row with its decoded request.
abbrev pub with_request : Row → JsonObject → OperationRecord
with_request row request = record {
  id = row.id;
  project_key = row.project_key;
  operation_type = row.operation_type;
  tool_name = row.tool_name;
  target_path = row.target_path;
  source = row.source;
  request_json = request;
  base_sha256 = row.base_sha256;
  after_sha256 = row.after_sha256;
  diff_text = row.diff_text;
  snapshot_id = row.snapshot_id;
  state = row.state;
  created_at = row.created_at;
  expires_at = row.expires_at;
}

module _ (platform : Platform) where
  -- The `request_json` of a row.
  unfoldable pub decode_request : Text → Result JsonObject
  unfolding coerce_json_object
  decode_request text = if is_empty text then ok [] else elim (platform.loads text) [
    | none ↦ raise Kind.invalid_operation
    | some decoded ↦ elim (coerce_json_object decoded) [
      | none ↦ raise Kind.invalid_operation
      | some payload ↦ ok payload
    ]
  ]

  -- _row_to_operation
  unfoldable pub row_to_operation : Row → Result OperationRecord
  unfolding decode_request
  row_to_operation row = elim (decode_request row.request_json) [
    | err exception ↦ err exception
    | ok request ↦ ok (with_request row request)
  ]

  unfoldable pub get_operation : Text → Action (Option OperationRecord)
  unfolding find_row row_to_operation
  get_operation operation_id = do
    rows ← fetch_rows
    elim (find_row operation_id rows) [
      | none ↦ return none
      | some row ↦ do operation ← lift (row_to_operation row); return (some operation)
    ]
