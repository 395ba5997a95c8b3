-- ===== src/Operations/Bounds.antt =====
-- The ids of the operation log are distinct, and the limits of the pending operations hold.
use ferumind.Common.{
  ◌+◌, ◌≤◌, ◌<◌, ◌≡◌, refl, true, false, ◌||◌, List, [], ◌∷◌, ◌++◌, arith, if◌then◌else◌,
}
use ferumind.Text.{Text}
use ferumind.Text.Chars.{text_eq, text_eq_iff}
use ferumind.Operations.{is_pending, Row}
use ferumind.Operations.Rows.{is_pending_of, content_bytes, pending_count, pending_bytes, has_id}
use ferumind.Operations.Record.{
  max_pending_operations_per_project, max_pending_operation_bytes_per_project,
}
use ferumind.Operations.Follows.{Follows, unchanged, leaves, moves, Updates}

pub Follows-id : {row next : Row} → Follows row next → next.id ≡ row.id
Follows-id unchanged = refl
Follows-id (leaves s h k) = refl
Follows-id (moves s h k) = refl

-- A row counts for no more than the one that it follows.
Follows-count :
    (p : Text) {row next : Row}
    → Follows row next
    → (if is_pending_of p next then 1 else 0) ≤ (if is_pending_of p row then 1 else 0)
Follows-count p unchanged = omega arith
Follows-count p {row = row} (leaves s h k) = ground (arith, h, k)
Follows-count p {row = row} (moves s h k) = ground (arith, h, k)

Follows-bytes :
    (p : Text) {row next : Row}
    → Follows row next
    → (if is_pending_of p next then content_bytes next.request_json next.diff_text else 0)
      ≤ (if is_pending_of p row then content_bytes row.request_json row.diff_text else 0)
Follows-bytes p unchanged = omega arith
Follows-bytes p {row = row} (leaves s h k) = ground (arith, h, k)
Follows-bytes p {row = row} (moves s h k) = ground (arith, h, k)

pub Updates-pending_count :
    (p : Text) (rows later : List Row)
    → Updates rows later
    → pending_count p later ≤ pending_count p rows
unfolding pending_count
Updates-pending_count p [] [] h = omega arith
Updates-pending_count p [] (next ∷ later) h = absurd h
Updates-pending_count p (row ∷ rows) [] h = absurd h
Updates-pending_count p (row ∷ rows) (next ∷ later) (f, h) =
    let a = Follows-count p f in
    let b = Updates-pending_count p rows later h in ground (arith, a, b)

pub Updates-pending_bytes :
    (p : Text) (rows later : List Row)
    → Updates rows later
    → pending_bytes p later ≤ pending_bytes p rows
unfolding pending_bytes
Updates-pending_bytes p [] [] h = omega arith
Updates-pending_bytes p [] (next ∷ later) h = absurd h
Updates-pending_bytes p (row ∷ rows) [] h = absurd h
Updates-pending_bytes p (row ∷ rows) (next ∷ later) (f, h) =
    let a = Follows-bytes p f in
    let b = Updates-pending_bytes p rows later h in ground (arith, a, b)

pub Updates-has_id :
    (id : Text) (rows later : List Row) → Updates rows later → has_id id later ≡ has_id id rows
unfolding has_id
Updates-has_id id [] [] h = refl
Updates-has_id id [] (next ∷ later) h = absurd h
Updates-has_id id (row ∷ rows) [] h = absurd h
Updates-has_id id (row ∷ rows) (next ∷ later) (f, h) =
    rw (Follows-id f, Updates-has_id id rows later h)

-- No two rows have the same id.
abbrev pub HaveDistinctIds : List Row → Type 0
HaveDistinctIds [] = Unit
HaveDistinctIds (row ∷ rows) = (has_id row.id rows ≡ false) × HaveDistinctIds rows

Updates-HaveDistinctIds :
    (rows later : List Row) → Updates rows later → HaveDistinctIds rows → HaveDistinctIds later
Updates-HaveDistinctIds [] [] h d = tt
Updates-HaveDistinctIds [] (next ∷ later) h d = absurd h
Updates-HaveDistinctIds (row ∷ rows) [] h d = absurd h
Updates-HaveDistinctIds (row ∷ rows) (next ∷ later) (f, h) (fresh, d) = (
  rw (Follows-id f, Updates-has_id row.id rows later h) fresh,
  Updates-HaveDistinctIds rows later h d,
)

-- The limits of record_operation, for every project.
abbrev pub IsLimited : List Row → Type 0
IsLimited rows =
    (p : Text)
    → (pending_count p rows ≤ max_pending_operations_per_project)
      × (pending_bytes p rows ≤ max_pending_operation_bytes_per_project)

abbrev pub IsTable : List Row → Type 0
IsTable rows = HaveDistinctIds rows × IsLimited rows

pub Updates-IsTable : (rows later : List Row) → Updates rows later → IsTable rows → IsTable later
Updates-IsTable rows later u (d, l) = (
  Updates-HaveDistinctIds rows later u d,
  λ p.
      let a = Updates-pending_count p rows later u in
      let b = Updates-pending_bytes p rows later u in let c = l p in (omega arith, omega arith),
)

pending_count-append :
    (p : Text) (xs ys : List Row)
    → pending_count p (xs ++ ys) ≡ pending_count p xs + pending_count p ys
unfolding pending_count
pending_count-append p [] ys = omega arith
pending_count-append p (x ∷ xs) ys = omega (arith, pending_count-append p xs ys)

pending_bytes-append :
    (p : Text) (xs ys : List Row)
    → pending_bytes p (xs ++ ys) ≡ pending_bytes p xs + pending_bytes p ys
unfolding pending_bytes
pending_bytes-append p [] ys = omega arith
pending_bytes-append p (x ∷ xs) ys = omega (arith, pending_bytes-append p xs ys)

has_id-append :
    (id : Text) (rows : List Row) (row : Row)
    → has_id id (rows ++ (row ∷ [])) ≡ (has_id id rows || text_eq row.id id)
unfolding has_id
has_id-append id [] row = ground arith
has_id-append id (x ∷ rows) row = ground (arith, has_id-append id rows row)

HaveDistinctIds-append :
    (rows : List Row) (row : Row)
    → HaveDistinctIds rows
    → has_id row.id rows ≡ false
    → HaveDistinctIds (rows ++ (row ∷ []))
unfolding has_id
HaveDistinctIds-append [] row d h = (refl, tt)
HaveDistinctIds-append (x ∷ rows) row (fresh, d) h = ground (
  arith,
  has_id-append x.id rows row,
  text_eq_iff x.id row.id,
  text_eq_iff row.id x.id,
  HaveDistinctIds-append rows row d,
)

-- A row with a new id keeps the table, where it is not pending or its project has room for it.
pub append-IsTable :
    (rows : List Row) (row : Row)
    → IsTable rows
    → has_id row.id rows ≡ false
    → (is_pending row.state ≡ true
        → (pending_count row.project_key rows < max_pending_operations_per_project)
          × (pending_bytes row.project_key rows + content_bytes row.request_json row.diff_text
              ≤ max_pending_operation_bytes_per_project))
    → IsTable (rows ++ (row ∷ []))
unfolding pending_count pending_bytes
append-IsTable rows row (d, l) h room = (
  HaveDistinctIds-append rows row d h,
  λ p.
      let a = pending_count-append p rows (row ∷ []) in
      let b = pending_bytes-append p rows (row ∷ []) in
      let c = l p in
      (
        ground (arith, room, text_eq_iff row.project_key p),
        ground (arith, room, text_eq_iff row.project_key p),
      ),
)
