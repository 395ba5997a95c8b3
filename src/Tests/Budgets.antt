-- ===== src/Tests/Budgets.antt =====
-- A budget of 100 bytes: the first contributor fits, the second one does not.
use ferumind.Common.{◌+◌, ◌≤◌, ◌≡◌, refl, some, List, [], ◌∷◌, arith}
use ferumind.ResponseLimits.{
  new_budget, Charge, trying, asserting, run_charges, charged_sum, run_charges-used,
}

abbrev calls : List Charge
calls = trying 64 ∷ asserting 64 ∷ trying 16 ∷ []

run_charges-used_example :
    ((run_charges (new_budget (some 100)) calls).0.used_bytes ≤ 100)
    × ((run_charges (new_budget (some 100)) calls).0.used_bytes
        ≡ 0 + charged_sum (run_charges (new_budget (some 100)) calls).1)
run_charges-used_example = run_charges-used (new_budget (some 100)) calls 100 refl (omega arith)
