-- ===== src/Runtime/Json.antt =====
-- core/types.py `JsonValue`, and the Python objects that a YAML mapping holds.
use ferumind.Common.{
  ◌≡◌, refl, Bool, true, false, ◌||◌, Option, none, some, List, [], ◌∷◌, arith, if◌then◌else◌, ℤ,
}
use ferumind.Text.{Text}
use ferumind.Text.Chars.{text_eq, text_eq_iff}

-- A `float` is held by its `repr`. `other` is any other object, such as a date, by its `str`.
mutual
  pub data Value : Type 0 where
    null : Value
    boolean : Bool → Value
    integer : ℤ → Value
    float : Text → Value
    str : Text → Value
    array : Values → Value
    object : Fields → Value
    other : Text → Value

  pub data Values : Type 0 where
    nil : Values
    cons : Value → Values → Values

  pub data Fields : Type 0 where
    end : Fields
    field : Text → Value → Fields → Fields

-- What `safe_load_yaml` ends in where it raises no `yaml.YAMLError`: a mapping with its entries, any
-- other object, or a `ValueError` of `yaml.safe_load` (a date that does not exist), which it does not
-- catch.
pub data Loaded : Type 0 where
  mapping : List (Text × Value) → Loaded
  not_mapping : Loaded
  bad_value : Loaded

abbrev pub JsonObject : Type 0
JsonObject = List (Text × Value)

-- d.get(key)
unfoldable pub lookup : Text → JsonObject → Option Value
lookup key [] = none
lookup key ((k, v) ∷ d) = if text_eq k key then some v else lookup key d

-- d[key] = v: a key that is there keeps its place.
unfoldable pub insert : Text → Value → JsonObject → JsonObject
insert key v [] = (key, v) ∷ []
insert key v ((k, w) ∷ d) = if text_eq k key then (k, v) ∷ d else (k, w) ∷ insert key v d

-- del d[key]
unfoldable pub erase : Text → JsonObject → JsonObject
erase key [] = []
erase key ((k, w) ∷ d) = if text_eq k key then d else (k, w) ∷ erase key d

-- d.update(e)
unfoldable pub update : JsonObject → JsonObject → JsonObject
update d [] = d
update d ((k, v) ∷ e) = update (insert k v d) e

-- `text in list`
unfoldable pub contains : List Text → Text → Bool
contains [] a = false
contains (x ∷ xs) a = text_eq x a || contains xs a

-- `key in d`
unfoldable pub has_key : Text → JsonObject → Bool
unfolding lookup
has_key key d = elim (lookup key d) [ none ↦ false | some v ↦ true ]

pub lookup-insert :
    (j k : Text) (v : Value) (d : JsonObject)
    → lookup j (insert k v d) ≡ (if text_eq k j then some v else lookup j d)
unfolding lookup insert
lookup-insert j k v [] = refl
lookup-insert j k v ((i, w) ∷ d) =
    ground (arith, text_eq_iff k j, text_eq_iff i k, text_eq_iff i j, lookup-insert j k v d)

-- A dict: no key stands twice.
abbrev pub NodupKeys : JsonObject → Type 0
NodupKeys [] = Unit
NodupKeys ((k, v) ∷ d) = (lookup k d ≡ none) × NodupKeys d

pub lookup-erase_self : (k : Text) (d : JsonObject) → NodupKeys d → lookup k (erase k d) ≡ none
unfolding lookup erase
lookup-erase_self k [] u = refl
lookup-erase_self k ((i, w) ∷ d) (fresh, u) =
    ground (arith, text_eq_iff i k, lookup-erase_self k d u)

pub lookup-erase_ne :
    (j k : Text) (d : JsonObject) → text_eq k j ≡ false → lookup j (erase k d) ≡ lookup j d
unfolding lookup erase
lookup-erase_ne j k [] h = refl
lookup-erase_ne j k ((i, w) ∷ d) h =
    ground (arith, text_eq_iff k j, text_eq_iff i k, text_eq_iff i j, lookup-erase_ne j k d h)

pub insert-NodupKeys :
    (k : Text) (v : Value) (d : JsonObject) → NodupKeys d → NodupKeys (insert k v d)
unfolding insert lookup
insert-NodupKeys k v [] u = (refl, tt)
insert-NodupKeys k v ((i, w) ∷ d) (fresh, u) =
    ground
      (arith, insert-NodupKeys k v d u, lookup-insert i k v d, text_eq_iff i k, text_eq_iff k i)

pub erase-NodupKeys : (k : Text) (d : JsonObject) → NodupKeys d → NodupKeys (erase k d)
unfolding erase lookup
erase-NodupKeys k [] u = tt
erase-NodupKeys k ((i, w) ∷ d) (fresh, u) =
    ground (arith, erase-NodupKeys k d u, lookup-erase_ne i k d, text_eq_iff i k, text_eq_iff k i)
