-- ===== src/Operations/Rows.antt =====
-- What the statements of core/operations.py select and update.
use ferumind.Common.{
  ℕ, ◌+◌, Bool, true, false, not, ◌&&◌, ◌||◌, Option, none, some, List, [], ◌∷◌, if◌then◌else◌,
}
use ferumind.Text.{Text}
use ferumind.Text.Chars.{codes, text_eq, utf8_length}
use ferumind.Operations.{State, expired, stale, is_pending, Row}

-- '{}'
abbrev pub empty_request : Text
empty_request = codes "{}"

-- project_key = ? AND state = 'pending'
abbrev pub is_pending_of : Text → Row → Bool
is_pending_of project_key row = text_eq row.project_key project_key && is_pending row.state

-- COALESCE(text, '')
abbrev pub or_empty : Option Text → Text
or_empty none = []
or_empty (some t) = t

-- length(CAST(request_json AS BLOB)) + length(CAST(COALESCE(diff_text, '') AS BLOB))
abbrev pub content_bytes : Text → Option Text → ℕ
content_bytes request_json diff_text = utf8_length request_json + utf8_length (or_empty diff_text)

-- COUNT(*)
unfoldable pub pending_count : Text → List Row → ℕ
pending_count project_key [] = 0
pending_count project_key (row ∷ rows) =
    (if is_pending_of project_key row then 1 else 0) + pending_count project_key rows

-- SUM(...)
unfoldable pub pending_bytes : Text → List Row → ℕ
pending_bytes project_key [] = 0
pending_bytes project_key (row ∷ rows) =
    (if is_pending_of project_key row then content_bytes row.request_json row.diff_text else 0)
    + pending_bytes project_key rows

-- WHERE id = ?
unfoldable pub has_id : Text → List Row → Bool
has_id id [] = false
has_id id (row ∷ rows) = text_eq row.id id || has_id id rows

-- SELECT * ... WHERE id = ?
unfoldable pub find_row : Text → List Row → Option Row
find_row id [] = none
find_row id (row ∷ rows) =
    let later = find_row id rows in if text_eq row.id id then some row else later

-- SET state = ?, request_json = '{}', diff_text = NULL
abbrev pub scrub : State → Row → Row
scrub to_state row = record row { state = to_state; request_json = empty_request; diff_text = none }

-- SET state = ?, and the content is scrubbed where the row leaves `pending`
abbrev pub set_state : State → Row → Row
set_state to_state row =
    if is_pending row.state && not (is_pending to_state)
    then scrub to_state row
    else record row { state = to_state }

-- UPDATE ... WHERE id = ?
unfoldable pub mark_rows : Text → State → List Row → List Row
mark_rows id to_state [] = []
mark_rows id to_state (row ∷ rows) =
    (if text_eq row.id id then set_state to_state row else row) ∷ mark_rows id to_state rows

-- UPDATE ... WHERE id = ? AND state = 'pending'
unfoldable pub expire_rows : Text → List Row → List Row
expire_rows id [] = []
expire_rows id (row ∷ rows) =
    (if text_eq row.id id && is_pending row.state then scrub expired row else row)
    ∷ expire_rows id rows

-- executemany
unfoldable pub expire_all : List Text → List Row → List Row
expire_all [] rows = rows
expire_all (id ∷ ids) rows = expire_all ids (expire_rows id rows)

-- base_sha256 IS NULL OR base_sha256 != ?, where a hash is given
abbrev pub is_outdated : Option Text → Option Text → Bool
is_outdated none base_sha256 = true
is_outdated (some current_sha256) none = true
is_outdated (some current_sha256) (some base_sha256) = not (text_eq base_sha256 current_sha256)

-- target_path = ?
abbrev pub is_text : Option Text → Text → Bool
is_text none text = false
is_text (some t) text = text_eq t text

-- The WHERE of `mark_stale_proposals`.
abbrev pub is_stale_target : Text → Text → Option Text → Row → Bool
is_stale_target project_key target_path current_sha256 row =
    is_pending_of project_key row
    && (is_text row.target_path target_path && is_outdated current_sha256 row.base_sha256)

unfoldable pub stale_rows : Text → Text → Option Text → List Row → List Row
stale_rows project_key target_path current_sha256 [] = []
stale_rows project_key target_path current_sha256 (row ∷ rows) =
    (if is_stale_target project_key target_path current_sha256 row then scrub stale row else row)
    ∷ stale_rows project_key target_path current_sha256 rows

-- cursor.rowcount
unfoldable pub stale_count : Text → Text → Option Text → List Row → ℕ
stale_count project_key target_path current_sha256 [] = 0
stale_count project_key target_path current_sha256 (row ∷ rows) =
    (if is_stale_target project_key target_path current_sha256 row then 1 else 0)
    + stale_count project_key target_path current_sha256 rows
