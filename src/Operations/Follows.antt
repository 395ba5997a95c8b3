-- ===== src/Operations/Follows.antt =====
-- What a statement of core/operations.py may do to a row, and to the rows of the table.
use ferumind.Common.{
  ◌≡◌, refl, inl, inr, Bool, true, false, Option, List, [], ◌∷◌, ◌++◌, arith, if◌then◌else◌,
  Bool-cases,
}
use ferumind.Text.{Text}
use ferumind.Operations.{State, expired, stale, is_pending, Row}
use ferumind.Operations.Rows.{
  scrub, set_state, mark_rows, expire_rows, expire_all, is_stale_target, stale_rows,
}

-- A row is unchanged, or it leaves `pending` without its content, or it moves on from a state that
-- is not `pending`. It does not come back to `pending`.
pub data Follows (row : Row) : Row → Type 0 where
  unchanged : Follows row row
  leaves :
      (to_state : State)
      → is_pending row.state ≡ true
      → is_pending to_state ≡ false
      → Follows row (scrub to_state row)
  moves :
      (to_state : State)
      → is_pending row.state ≡ false
      → is_pending to_state ≡ false
      → Follows row (record row { state = to_state })

pub Follows-trans : {a b c : Row} → Follows a b → Follows b c → Follows a c
Follows-trans unchanged q = q
Follows-trans (leaves s h k) unchanged = leaves s h k
Follows-trans (leaves s h k) (leaves t i j) = absurd (cc)
Follows-trans (leaves s h k) (moves t i j) = leaves t h j
Follows-trans (moves s h k) unchanged = moves s h k
Follows-trans (moves s h k) (leaves t i j) = absurd (cc)
Follows-trans (moves s h k) (moves t i j) = moves t h j

-- Each row is followed by the one in its place, and new rows stand behind them.
abbrev pub Extends : List Row → List Row → Type 0
Extends [] later = Unit
Extends (row ∷ rows) [] = ⊥
Extends (row ∷ rows) (next ∷ later) = Follows row next × Extends rows later

pub Extends-refl : (rows : List Row) → Extends rows rows
Extends-refl [] = tt
Extends-refl (row ∷ rows) = (unchanged, Extends-refl rows)

pub Extends-trans : (a b c : List Row) → Extends a b → Extends b c → Extends a c
Extends-trans [] b c h k = tt
Extends-trans (x ∷ a) [] c h k = absurd h
Extends-trans (x ∷ a) (y ∷ b) [] h k = absurd k
Extends-trans (x ∷ a) (y ∷ b) (z ∷ c) (p, h) (q, k) = (Follows-trans p q, Extends-trans a b c h k)

-- Each row is followed by the one in its place, and there are no others.
abbrev pub Updates : List Row → List Row → Type 0
Updates [] [] = Unit
Updates [] (next ∷ later) = ⊥
Updates (row ∷ rows) [] = ⊥
Updates (row ∷ rows) (next ∷ later) = Follows row next × Updates rows later

pub Updates-refl : (rows : List Row) → Updates rows rows
Updates-refl [] = tt
Updates-refl (row ∷ rows) = (unchanged, Updates-refl rows)

pub Updates-trans : (a b c : List Row) → Updates a b → Updates b c → Updates a c
Updates-trans [] [] c h k = k
Updates-trans [] (y ∷ b) c h k = absurd h
Updates-trans (x ∷ a) [] c h k = absurd h
Updates-trans (x ∷ a) (y ∷ b) [] h k = absurd k
Updates-trans (x ∷ a) (y ∷ b) (z ∷ c) (p, h) (q, k) = (Follows-trans p q, Updates-trans a b c h k)

pub Updates-Extends : (rows later : List Row) → Updates rows later → Extends rows later
Updates-Extends [] later h = tt
Updates-Extends (row ∷ rows) [] h = absurd h
Updates-Extends (row ∷ rows) (next ∷ later) (p, h) = (p, Updates-Extends rows later h)

pub Extends-append : (rows more : List Row) → Extends rows (rows ++ more)
Extends-append [] more = tt
Extends-append (row ∷ rows) more = (unchanged, Extends-append rows more)

-- A row behind a test is changed by it or left.
if_Follows :
    (b : Bool) (row next : Row)
    → (b ≡ true → Follows row next)
    → Follows row (if b then next else row)
if_Follows true row next h = h refl
if_Follows false row next h = unchanged

set_state-Follows :
    (to_state : State) (row : Row)
    → is_pending to_state ≡ false
    → Follows row (set_state to_state row)
set_state-Follows to_state row h = elim (Bool-cases (is_pending row.state)) [
  | inl e ↦ rw (e, h) (leaves to_state e h)
  | inr e ↦ rw e (moves to_state e h)
]

pub mark_rows-Updates :
    (id : Text) (to_state : State) (rows : List Row)
    → is_pending to_state ≡ false
    → Updates rows (mark_rows id to_state rows)
unfolding mark_rows
mark_rows-Updates id to_state [] h = tt
mark_rows-Updates id to_state (row ∷ rows) h = (
  if_Follows _ row (set_state to_state row) (λ e. set_state-Follows to_state row h),
  mark_rows-Updates id to_state rows h,
)

expire_rows-Updates : (id : Text) (rows : List Row) → Updates rows (expire_rows id rows)
unfolding expire_rows
expire_rows-Updates id [] = tt
expire_rows-Updates id (row ∷ rows) = (
  if_Follows _ row (scrub expired row) (λ e. leaves expired (ground arith) refl),
  expire_rows-Updates id rows,
)

pub expire_all-Updates : (ids : List Text) (rows : List Row) → Updates rows (expire_all ids rows)
unfolding expire_all
expire_all-Updates [] rows = Updates-refl rows
expire_all-Updates (id ∷ ids) rows =
    Updates-trans rows (expire_rows id rows) _ (expire_rows-Updates id rows)
      (expire_all-Updates ids (expire_rows id rows))

pub stale_rows-Updates :
    (project_key target_path : Text) (current_sha256 : Option Text) (rows : List Row)
    → Updates rows (stale_rows project_key target_path current_sha256 rows)
unfolding stale_rows
stale_rows-Updates p t c [] = tt
stale_rows-Updates p t c (row ∷ rows) = (
  if_Follows (is_stale_target p t c row) row (scrub stale row)
      (λ e. leaves stale (ground arith) refl),
  stale_rows-Updates p t c rows,
)
