-- ===== src/Common/Errors.antt =====
-- core/errors.py: the exceptions that the modelled code raises, and the computations that raise them.
use Prim.Native.Nat.{ℕ}
use mathlib.Core.Path.{◌≡◌, refl}
use mathlib.Core.Logic.{◌⊎◌, inl, inr}
use mathlib.Core.Bool.{Bool, true, false}
use mathlib.Core.Option.{Option, none}

-- One constructor for each exception class; `key_error`, `value_error` and `os_error` are Python's
-- own, and `integrity_error` is SQLite's. `out_of_fuel` is the models' own: loops run on fuel, and
-- a theorem beside each says that it is not returned.
pub data Kind : Type 0 where
  validation section_not_found range_not_found range_too_large match_not_found ambiguous_match :
      Kind
  invalid_regex frontmatter_protected frontmatter_required frontmatter_invalid : Kind
  patch_conflict target_hash_mismatch key_error out_of_fuel : Kind
  invalid_operation operation_not_found patch_expired patch_project_mismatch : Kind
  document_not_found document_archived unknown_folder path_safety workspace_mismatch
        unsupported_file_type :
      Kind
  file_too_large response_too_large value_error integrity_error os_error : Kind

-- An exception: its class, and the `edit_index` of its details. Messages and other details are not
-- modelled.
pub record Error : Type 0 where
  pub kind : Kind
  pub edit_index : Option ℕ

-- An exception, or the value of a computation that raised none.
pub data Result {ℓ} (Value : Type ℓ) : Type ℓ where
  err : (exception : Error) → Result Value
  ok : (value : Value) → Result Value

abbrev pub raise {ℓ} : {A : Type ℓ} → Kind → Result A
raise k = err (record { kind = k; edit_index = none })

-- `if test: raise k`
abbrev pub raise_if : Bool → Kind → Result (Unit {0})
raise_if true k = raise k
raise_if false k = ok tt

infixl 5 ◌>>=◌
-- The steps behind an exception are not run.
abbrev pub ◌>>=◌ {ℓ₁ ℓ₂} : {A : Type ℓ₁} {B : Type ℓ₂} → Result A → (A → Result B) → Result B
err exception >>= next = err exception
ok value >>= next = next value

infixl 5 ◌>>◌
abbrev pub ◌>>◌ {ℓ₁ ℓ₂} : {A : Type ℓ₁} {B : Type ℓ₂} → Result A → Result B → Result B
first >> next = first >>= (λ value. next)

-- Steps that end in a value: the first one has a value, and the next one ends in theirs from it.
pub >>=-eq-ok {ℓ₁ ℓ₂} :
    {Early : Type ℓ₁} {Late : Type ℓ₂} (first : Result Early) (next : Early → Result Late)
    {last : Late}
    → first >>= next ≡ ok last
    → (between : Early) × (first ≡ ok between) × (next between ≡ ok last)
>>=-eq-ok (err exception) next ended = cc
>>=-eq-ok (ok between) next ended = (between, refl, ended)

pub ok_injective {ℓ} : {A : Type ℓ} {a b : A} → (let r : Result A = ok a in r) ≡ ok b → a ≡ b
ok_injective h = cc

pub Result-cases {ℓ} :
    {A : Type ℓ} (result : Result A)
    → ((exception : Error) × (result ≡ err exception)) ⊎ ((value : A) × (result ≡ ok value))
Result-cases (err exception) = inl (exception, refl)
Result-cases (ok value) = inr (value, refl)

-- `raise k(..., details={"edit_index": index})`, where an index is given
abbrev pub raise_at {ℓ} : {A : Type ℓ} → Kind → Option ℕ → Result A
raise_at k index = err (record { kind = k; edit_index = index })

abbrev pub raise_at_if : Bool → Kind → Option ℕ → Result (Unit {0})
raise_at_if true k index = raise_at k index
raise_at_if false k index = ok tt

-- `except FrontmatterInvalidError: raise k`, around a check whose value is not used
abbrev pub translate {ℓ} : {A : Type ℓ} → Kind → Result A → Result (Unit {0})
translate k (ok a) = ok tt
translate k (err e) = raise k
