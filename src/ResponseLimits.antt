-- ===== src/ResponseLimits.antt =====
-- core/response_limits.py: what a transport can carry, and the budget of one response.
use ferumind.Common.{
  ℕ, ◌+◌, ◌-◌, ◌*◌, ◌/◌, ◌≤◌, ◌≡◌, Bool, true, false, not, Option, none, some, List, [], ◌∷◌, arith,
  ltb, leb, if◌then◌else◌, Kind, Result, ok, err, raise, raise_if,
}

-- Text is charged at its size and a sixteenth of it.
abbrev pub json_overhead_divisor : ℕ
json_overhead_divisor = 16

unfoldable pub charged_text_bytes : ℕ → ℕ
charged_text_bytes measured_bytes = measured_bytes + measured_bytes / json_overhead_divisor

unfoldable pub assert_blob_is_deliverable : ℕ → Option ℕ → Result (Unit {0})
assert_blob_is_deliverable size_bytes none = ok tt
assert_blob_is_deliverable size_bytes (some max_response_bytes) =
    raise_if (not (leb (size_bytes * 4 / 3) max_response_bytes)) Kind.file_too_large

-- The fields of a budget; `surface` stands in messages only.
pub record ResponseBudget : Type 0 where
  pub limit_bytes : Option ℕ
  pub used_bytes : ℕ

-- __init__
abbrev pub new_budget : Option ℕ → ResponseBudget
new_budget limit_bytes = record { limit_bytes = limit_bytes; used_bytes = 0 }

-- max(0, limit - used)
unfoldable pub remaining_bytes : ResponseBudget → Option ℕ
remaining_bytes budget = elim budget.limit_bytes [
  | none ↦ none
  | some limit ↦ some (limit - budget.used_bytes)
]

-- limit is not None and used + charged > limit
unfoldable pub is_over : ResponseBudget → ℕ → Bool
is_over budget charged = elim budget.limit_bytes [
  | none ↦ false
  | some limit ↦ ltb limit (budget.used_bytes + charged)
]

unfoldable pub try_charge : ResponseBudget → ℕ → ResponseBudget × Bool
unfolding charged_text_bytes is_over
try_charge budget measured_bytes =
    if is_over budget (charged_text_bytes measured_bytes) then (budget, false) else (
      record budget { used_bytes = budget.used_bytes + charged_text_bytes measured_bytes },
      true,
    )

-- A budget with no limit is not charged.
unfoldable pub charge : ResponseBudget → ℕ → ResponseBudget × Result (Unit {0})
unfolding try_charge
charge budget measured_bytes = elim budget.limit_bytes [
  | none ↦ (budget, ok tt)
  | some limit ↦
      let tried = try_charge budget measured_bytes in
      if tried.1 then (tried.0, ok tt) else (tried.0, raise Kind.response_too_large)
]

-- A call on a budget.
pub data Charge : Type 0 where
  trying asserting : ℕ → Charge

-- The budget behind a call, and whether the contributor was let in.
unfoldable pub run_charge : ResponseBudget → Charge → ResponseBudget × Bool
unfolding try_charge charge
run_charge budget (trying n) = try_charge budget n
run_charge budget (asserting n) =
    let run = charge budget n in (run.0, elim run.1 [ ok u ↦ true | err e ↦ false ])

size_of : Charge → ℕ
size_of (trying n) = n
size_of (asserting n) = n

-- The sizes that were let in, and the budget behind all calls.
unfoldable pub run_charges : ResponseBudget → List Charge → ResponseBudget × List ℕ
unfolding run_charge size_of
run_charges budget [] = (budget, [])
run_charges budget (call ∷ calls) =
    let run = run_charge budget call in
    let later = run_charges run.0 calls in
    (later.0, if run.1 then size_of call ∷ later.1 else later.1)

-- What sizes are charged in all.
abbrev pub charged_sum : List ℕ → ℕ
charged_sum [] = 0
charged_sum (n ∷ ns) = charged_text_bytes n + charged_sum ns

-- The limit is kept, and the other field too.
run_charge-used :
    (budget : ResponseBudget) (call : Charge) (limit : ℕ)
    → budget.limit_bytes ≡ some limit
    → budget.used_bytes ≤ limit
    → ((run_charge budget call).0.limit_bytes ≡ some limit)
      × ((run_charge budget call).0.used_bytes ≤ limit)
      × ((run_charge budget call).0.used_bytes
          ≡ budget.used_bytes
            + (if (run_charge budget call).1 then charged_text_bytes (size_of call) else 0))
unfolding run_charge try_charge charge is_over size_of
run_charge-used budget (trying n) limit h k =
    (ground (arith, h, k), ground (arith, h, k), ground (arith, h, k))
run_charge-used budget (asserting n) limit h k =
    (ground (arith, h, k), ground (arith, h, k), ground (arith, h, k))

-- A budget that is inside its limit stays inside it over any calls of `charge` and `try_charge`,
-- and it is charged for exactly the contributors that were let in.
pub run_charges-used :
    (budget : ResponseBudget) (calls : List Charge) (limit : ℕ)
    → budget.limit_bytes ≡ some limit
    → budget.used_bytes ≤ limit
    → ((run_charges budget calls).0.used_bytes ≤ limit)
      × ((run_charges budget calls).0.used_bytes
          ≡ budget.used_bytes + charged_sum (run_charges budget calls).1)
unfolding run_charges
run_charges-used budget [] limit h k = (k, omega arith)
run_charges-used budget (call ∷ calls) limit h k =
    let (a, b, c) = run_charge-used budget call limit h k in
    let (d, e) = run_charges-used (run_charge budget call).0 calls limit a b in
    (d, ground (arith, c, e))
