-- ===== src/Operations/Expiry.antt =====
-- What a sweep of core/operations.py expires.
use ferumind.Common.{
  ℕ, ◌≡◌, refl, sym, ◌∙◌, inl, inr, Bool, false, ◌&&◌, none, some, List, [], ◌∷◌, arith, ltb,
  if◌then◌else◌, Result-cases, ok, err,
}
use ferumind.Text.{Text}
use ferumind.Text.Chars.{text_eq_iff}
use ferumind.Runtime.Json.{contains}
use ferumind.Operations.{Row, Platform, Log, expired, is_pending}
use ferumind.Operations.Rows.{is_pending_of, scrub, has_id, expire_rows, expire_all}
use ferumind.Operations.Sweep.{parse_expiration, note_expired, expired_ids, sweep_expired_proposals}
use ferumind.Operations.Bounds.{HaveDistinctIds}

-- Whether a row has an expiry, and it has passed.
abbrev pub is_overdue : Platform → ℕ → Row → Bool
is_overdue platform time row = elim row.expires_at [
  | none ↦ false
  | some value ↦ elim (parse_expiration platform value) [
    | err exception ↦ false
    | ok expires ↦ ltb expires time
  ]
]

-- The overdue proposals of a project expire, and no other row changes.
abbrev pub sweep_rows : Platform → Text → ℕ → List Row → List Row
sweep_rows platform project_key time [] = []
sweep_rows platform project_key time (row ∷ rows) =
    (if is_pending_of project_key row && is_overdue platform time row
      then scrub expired row
      else row)
    ∷ sweep_rows platform project_key time rows

-- The pending rows with a listed id expire.
abbrev expire_listed : List Text → List Row → List Row
expire_listed ids [] = []
expire_listed ids (row ∷ rows) =
    (if contains ids row.id && is_pending row.state then scrub expired row else row)
    ∷ expire_listed ids rows

expire_listed-nil : (rows : List Row) → expire_listed [] rows ≡ rows
unfolding contains
expire_listed-nil [] = refl
expire_listed-nil (row ∷ rows) = rw (expire_listed-nil rows) refl

expire_listed-expire_rows :
    (id : Text) (ids : List Text) (rows : List Row)
    → expire_listed ids (expire_rows id rows) ≡ expire_listed (id ∷ ids) rows
unfolding expire_rows contains
expire_listed-expire_rows id ids [] = refl
expire_listed-expire_rows id ids (row ∷ rows) =
    ground
      (arith, expire_listed-expire_rows id ids rows, text_eq_iff row.id id, text_eq_iff id row.id)

expire_all-expire_listed :
    (ids : List Text) (rows : List Row) → expire_all ids rows ≡ expire_listed ids rows
unfolding expire_all
expire_all-expire_listed [] rows = sym (expire_listed-nil rows)
expire_all-expire_listed (id ∷ ids) rows =
    expire_all-expire_listed ids (expire_rows id rows) ∙ expire_listed-expire_rows id ids rows

-- One more id changes nothing where no row has it.
expire_listed_absent :
    (id : Text) (ids : List Text) (rows : List Row)
    → has_id id rows ≡ false
    → expire_listed (id ∷ ids) rows ≡ expire_listed ids rows
unfolding has_id contains
expire_listed_absent id ids [] h = refl
expire_listed_absent id ids (row ∷ rows) h =
    ground (arith, expire_listed_absent id ids rows, text_eq_iff row.id id, text_eq_iff id row.id)

-- Only ids of the rows are listed.
expired_ids-absent :
    (platform : Platform) (project_key : Text) (time : ℕ) (id : Text) (rows : List Row)
    (ids : List Text)
    → expired_ids platform project_key time rows ≡ ok ids
    → has_id id rows ≡ false
    → contains ids id ≡ false
unfolding expired_ids note_expired has_id contains
expired_ids-absent platform project_key time id [] ids h e = ground (arith, h)
expired_ids-absent platform project_key time id (row ∷ rows) ids h e =
    elim (Result-cases (expired_ids platform project_key time rows)) [
      | inl (exception, r) ↦ ground (arith, h, r, e)
      | inr (later, r) ↦
          ground (arith, h, r, e, expired_ids-absent platform project_key time id rows later r)
    ]

expire_listed-expired_ids :
    (platform : Platform) (project_key : Text) (time : ℕ) (rows : List Row) (ids : List Text)
    → HaveDistinctIds rows
    → expired_ids platform project_key time rows ≡ ok ids
    → expire_listed ids rows ≡ sweep_rows platform project_key time rows
unfolding expired_ids note_expired contains
expire_listed-expired_ids platform project_key time [] ids d h = refl
expire_listed-expired_ids platform project_key time (row ∷ rows) ids (fresh, d) h =
    elim (Result-cases (expired_ids platform project_key time rows)) [
      | inl (exception, r) ↦ ground (arith, h, r)
      | inr (later, r) ↦
          let a = expired_ids-absent platform project_key time row.id rows later r fresh in
          let b = expire_listed-expired_ids platform project_key time rows later d r in
          let c = expire_listed_absent row.id later rows fresh in
          ground (arith, h, r, a, b, c, text_eq_iff row.id row.id)
    ]

-- Where a sweep of a log with distinct ids returns, exactly the pending rows of the project whose
-- expiry has passed are expired, without their content, and every other row is unchanged.
pub sweep_expired_proposals_lem :
    (platform : Platform) (project_key : Text) (commit : Bool) (log later : Log) (marked : ℕ)
    → HaveDistinctIds log.operations
    → sweep_expired_proposals platform project_key commit log ≡ (later, ok marked)
    → later.operations
      ≡ sweep_rows platform project_key (platform.clock log.readings) log.operations
unfolding sweep_expired_proposals
sweep_expired_proposals_lem platform project_key commit log later marked d h =
    elim (Result-cases
      (expired_ids platform project_key (platform.clock log.readings) log.operations)) [
        | inl (exception, e) ↦ ground (arith, h, e)
        | inr (ids, e) ↦
            let a = expire_all-expire_listed ids log.operations in
            let b =
              expire_listed-expired_ids platform project_key (platform.clock log.readings)
                log.operations ids d e in
            ground (arith, h, e, a, b)
      ]
