-- ===== src/Operations/Trail.antt =====
-- An operation stays in the log of core/operations.py.
use ferumind.Common.{◌≡◌, refl, subst, inl, inr, some, List, [], ◌∷◌, arith, Bool-cases}
use ferumind.Text.{Text}
use ferumind.Text.Chars.{text_eq}
use ferumind.Operations.{Row, Platform, Log}
use ferumind.Operations.Rows.{find_row}
use ferumind.Operations.Follows.{Follows, Extends}
use ferumind.Operations.Bounds.{Follows-id}
use ferumind.Operations.Writes.{Writes, Writes-Extends}

Extends-find_row :
    (id : Text) (rows later : List Row) {row : Row}
    → Extends rows later
    → find_row id rows ≡ some row
    → (next : Row) × (find_row id later ≡ some next) × Follows row next
unfolding find_row
Extends-find_row id [] later h e = cc
Extends-find_row id (x ∷ rows) [] h e = absurd h
Extends-find_row id (x ∷ rows) (y ∷ later) {row = row} (f, h) e =
    elim (Bool-cases (text_eq x.id id)) [
      | inl b ↦
          let same : x ≡ row = ground (arith, e, b) in
          (y, rw (Follows-id f, b) refl, subst (λ r. Follows r y) same f)
      | inr b ↦
          let (next, found, g) = Extends-find_row id rows later h (ground (arith, e, b)) in
          (next, rw (Follows-id f, b) found, g)
    ]

-- An operation that is in a log is found by its id after any writes, each of which marks a row
-- with another state than pending: the row is unchanged, or it has left the state pending without
-- its content, or it moved between other states; it never comes back to pending.
pub Writes-find_row :
    {platform : Platform} {log later : Log} (id : Text) (row : Row)
    → Writes platform log later
    → find_row id log.operations ≡ some row
    → (next : Row) × (find_row id later.operations ≡ some next) × Follows row next
Writes-find_row {log = log} {later = later} id row run found =
    Extends-find_row id log.operations later.operations (Writes-Extends run) found
