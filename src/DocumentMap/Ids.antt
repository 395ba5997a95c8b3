-- ===== src/DocumentMap/Ids.antt =====
-- core/document_map.py: `_slugify` and `_unique_id`.
pub mod Fresh
use ferumind.Common.{
  ℕ, zero, suc, ◌+◌, ◌-◌, ◌*◌, ◌/◌, ◌%◌, ◌≤◌, ◌<◌, min, max, ◌≡◌, refl, sym, ap, ◌∙◌, subst, ◌≡⟨◌⟩◌,
  ◌∎, ◌≢◌, ◌↔◌, ◌⊎◌, inl, inr, Bool, true, false, not, ◌&&◌, ◌||◌, Option, none, some, List, [],
  ◌∷◌, ◌++◌, map, append-nil, append_assoc, arith, ltb, leb, ◌==◌, if◌then◌else◌, ==_iff, ==_refl,
  leb→le, ltb→lt, Bool-cases, Option-cases, ℤ, pos, negsuc, int_lt, to_nat, Kind, Error, Result, ok,
  err, ◌>>=◌, ◌>>◌, raise, raise_if, >>=-eq-ok, length, get_elem?, get_or, set, take, drop,
  length-append, take-append-drop, length-take, length-drop, take-append_length, drop-append_length,
  drop-nil, take_all, drop_all, drop-suc-drop, take_of_append, drop_of_append, drop-drop,
  take-append-lt, drop-append-lt,
}
use ferumind.Text.{Text}
use ferumind.Text.Chars.{codes, drop_while, rstrip_of, text_eq, is_empty}
use ferumind.Runtime.{Runtime}
use ferumind.Runtime.Json.{contains}

-- f"{n}"
unfoldable pub decimal_onto : ℕ → ℕ → Text → Text
decimal_onto zero n acc = acc
decimal_onto (suc fuel) n acc =
    let more = decimal_onto fuel (n / 10) ((48 + n % 10) ∷ acc) in
    if ltb n 10 then (48 + n) ∷ acc else more

unfoldable pub decimal : ℕ → Text
unfolding decimal_onto
decimal n = decimal_onto (suc n) n []

-- `[a-z0-9]`
unfoldable pub is_slug_char : ℕ → Bool
is_slug_char c = (leb b'a' c && leb c b'z') || (leb b'0' c && leb c b'9')

-- re.sub(r"[^a-z0-9]+", "-", text); the flag says that the text continues a run.
unfoldable pub sub_runs : Bool → Text → Text
unfolding is_slug_char
sub_runs in_run [] = []
sub_runs in_run (c ∷ cs) =
    let rest = sub_runs (not (is_slug_char c)) cs in
    if is_slug_char c then c ∷ rest else if in_run then rest else b'-' ∷ rest

-- _slugify
unfoldable pub slugify : Runtime → Text → Text
unfolding sub_runs drop_while rstrip_of
slugify rt text =
    let is_dash = λ (c : ℕ). c == b'-' in
    let slug = take 48 (rstrip_of is_dash (drop_while is_dash (sub_runs false (rt.lower text)))) in
    if is_empty slug then codes "section" else slug

-- The set of the ids in use, and the dict of the next suffixes.
pub record IdState : Type 0 where
  pub used : List Text
  pub next_suffixes : List (Text × ℕ)

abbrev pub no_ids : IdState
no_ids = record { used = []; next_suffixes = [] }

-- next_suffixes.get(base, 1)
unfoldable pub suffix_of : Text → List (Text × ℕ) → ℕ
unfolding text_eq
suffix_of base [] = 1
suffix_of base ((b, n) ∷ rest) = if text_eq b base then n else suffix_of base rest

unfoldable pub candidate : Text → ℕ → Text
unfolding decimal
candidate base suffix = if suffix == 1 then base else base ++ b'-' ∷ decimal suffix

-- The loop `while candidate in used`: the suffix at which it stops.
unfoldable pub free_suffix : ℕ → Text → List Text → ℕ → ℕ
unfolding candidate contains
free_suffix zero base used suffix = suffix
free_suffix (suc fuel) base used suffix =
    let next = free_suffix fuel base used (max (suffix + 1) 2) in
    if contains used (candidate base suffix) then next else suffix

-- _unique_id: the id, and the state with it
unfoldable pub unique_id : Text → IdState → Text × IdState
unfolding free_suffix suffix_of
unique_id base ids =
    let suffix =
      free_suffix (suc (length ids.used)) base ids.used (suffix_of base ids.next_suffixes) in
    let id = candidate base suffix in
    (
      id,
      record {
        used = id ∷ ids.used;
        next_suffixes = (base, max (suffix + 1) 2) ∷ ids.next_suffixes;
      },
    )
