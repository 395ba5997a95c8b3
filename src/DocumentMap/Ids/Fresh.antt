-- ===== src/DocumentMap/Ids/Fresh.antt =====
-- `_unique_id` returns an id that is not in use: its loop ends within the fuel.
use ferumind.Common.{
  ℕ, zero, suc, ◌+◌, ◌-◌, ◌*◌, ◌/◌, ◌%◌, ◌≤◌, ◌<◌, max, ◌≡◌, refl, sym, ap, ◌∙◌, inl, inr, true,
  false, List, [], ◌∷◌, ◌++◌, arith, ltb, ◌==◌, if◌then◌else◌, Bool-cases, length, length-append,
}
use ferumind.Text.{Text}
use ferumind.Text.Chars.{text_eq, text_eq_iff}
use ferumind.Runtime.Json.{contains}
use ferumind.DocumentMap.Ids.{
  IdState, decimal_onto, decimal, candidate, free_suffix, suffix_of, unique_id,
}

-- The number that decimal digits stand for.
value : ℕ → Text → ℕ
value acc [] = acc
value acc (c ∷ cs) = value (acc * 10 + (c - 48)) cs

value-decimal_onto :
    (fuel n : ℕ) (acc : Text) → n < fuel → value 0 (decimal_onto fuel n acc) ≡ value n acc
unfolding value decimal_onto
value-decimal_onto zero n acc h = absurd (omega arith)
value-decimal_onto (suc fuel) n acc h = elim (Bool-cases (ltb n 10)) [
  | inl small ↦
      rw small (ap (λ k. value k acc) (let e : 0 * 10 + (48 + n - 48) ≡ n = omega arith in e))
  | inr big ↦ rw big (
      value-decimal_onto fuel (n / 10) ((48 + n % 10) ∷ acc) (ground arith)
      ∙ ap (λ k. value k acc) (let e : n / 10 * 10 + (48 + n % 10 - 48) ≡ n = omega arith in e))
]

value-decimal : (n : ℕ) → value 0 (decimal n) ≡ n
unfolding decimal
value-decimal n = value-decimal_onto (suc n) n [] (omega arith) ∙ (unfold value in refl)

decimal_injective : (m n : ℕ) → decimal m ≡ decimal n → m ≡ n
decimal_injective m n e = sym (value-decimal m) ∙ ap (value 0) e ∙ value-decimal n

append_injective : (p a b : Text) → p ++ a ≡ p ++ b → a ≡ b
append_injective [] a b e = e
append_injective (c ∷ p) a b e = append_injective p a b (cc)

append_longer : (p a : Text) (c : ℕ) → p ≡ p ++ c ∷ a → ⊥
append_longer p a c e =
    let lengths : length p ≡ length (p ++ c ∷ a) = ap length e in
    omega (arith, length-append p (c ∷ a))

-- Distinct suffixes give distinct ids.
candidate_injective : (base : Text) (m n : ℕ) → candidate base m ≡ candidate base n → m ≡ n
unfolding candidate
candidate_injective base m n e = elim (Bool-cases (m == 1)) [
  | inl m1 ↦ elim (Bool-cases (n == 1)) [
    | inl n1 ↦ ground arith
    | inr n2 ↦ absurd (append_longer base (decimal n) b'-' (ground arith))
  ]
  | inr m2 ↦ elim (Bool-cases (n == 1)) [
    | inl n1 ↦ absurd (append_longer base (decimal m) b'-' (ground arith))
    | inr n2 ↦ decimal_injective m n (
        let tails : b'-' ∷ decimal m ≡ b'-' ∷ decimal n =
          append_injective base _ _ (ground arith) in
        cc)
  ]
]

-- The list without one occurrence of an element.
remove : Text → List Text → List Text
remove a [] = []
remove a (x ∷ xs) = if text_eq x a then xs else x ∷ remove a xs

length-remove :
    (a : Text) (xs : List Text) → contains xs a ≡ true → suc (length (remove a xs)) ≡ length xs
unfolding remove contains
length-remove a [] h = cc
length-remove a (x ∷ xs) h = ground (arith, length-remove a xs)

contains-remove :
    (a b : Text) (xs : List Text) → text_eq a b ≡ false → contains (remove a xs) b ≡ contains xs b
unfolding remove contains
contains-remove a b [] h = refl
contains-remove a b (x ∷ xs) h =
    ground (arith, contains-remove a b xs, text_eq_iff x a, text_eq_iff x b, text_eq_iff a b)

-- The loop reads the set only at the ids of later suffixes.
free_suffix-same :
    (fuel : ℕ) (base : Text) (used used' : List Text) (s : ℕ)
    → ((t : ℕ) → s ≤ t → contains used (candidate base t) ≡ contains used' (candidate base t))
    → free_suffix fuel base used s ≡ free_suffix fuel base used' s
unfolding free_suffix
free_suffix-same zero base used used' s h = refl
free_suffix-same (suc fuel) base used used' s h = ground (
  arith,
  h s (omega arith),
  free_suffix-same fuel base used used' (max (s + 1) 2) (λ t le. h t (omega arith)),
)

free_suffix-le :
    (fuel : ℕ) (base : Text) (used : List Text) (s : ℕ) → s ≤ free_suffix fuel base used s
unfolding free_suffix
free_suffix-le zero base used s = omega arith
free_suffix-le (suc fuel) base used s =
    ground (arith, free_suffix-le fuel base used (max (s + 1) 2))

candidate_differs :
    (base : Text) (s t : ℕ) → s < t → text_eq (candidate base s) (candidate base t) ≡ false
candidate_differs base s t lt = elim (Bool-cases (text_eq (candidate base s) (candidate base t))) [
  | inl e ↦ absurd (
      let same : s ≡ t =
        candidate_injective base s t ((text_eq_iff (candidate base s) (candidate base t)).0 e) in
      omega arith)
  | inr e ↦ e
]

-- With more fuel than there are ids in use, the loop stops at a free id.
free_suffix_fresh :
    (fuel : ℕ) (base : Text) (used : List Text) (s : ℕ)
    → length used < fuel
    → contains used (candidate base (free_suffix fuel base used s)) ≡ false
free_suffix_fresh zero base used s h = absurd (omega arith)
free_suffix_fresh (suc fuel) base used s h = elim (Bool-cases (contains used (candidate base s))) [
  | inr free ↦ unfold free_suffix in rw (free, free)
  | inl taken ↦
      let s' : ℕ = max (s + 1) 2 in
      let smaller : List Text = remove (candidate base s) used in
      let shorter = length-remove (candidate base s) used taken in
      let same : (t : ℕ)
          → s' ≤ t
          → contains used (candidate base t) ≡ contains smaller (candidate base t) =
        λ t le. sym (
          contains-remove (candidate base s) (candidate base t) used
            (candidate_differs base s t (omega arith))) in
      let loops = free_suffix-same fuel base used smaller s' same in
      let ends : ℕ = free_suffix fuel base smaller s' in
      let fresh = free_suffix_fresh fuel base smaller s' (omega arith) in
      let step : free_suffix (suc fuel) base used s ≡ ends =
        stepped fuel base used s taken ∙ loops in
      rw step (same ends (free_suffix-le fuel base smaller s') ∙ fresh)
]
  where
    stepped :
        (f : ℕ) (b : Text) (u : List Text) (n : ℕ)
        → contains u (candidate b n) ≡ true
        → free_suffix (suc f) b u n ≡ free_suffix f b u (max (n + 1) 2)
    stepped f b u n taken = unfold free_suffix in rw taken

-- The new id is not in the set of the ids in use, and the new set is that set with the id.
pub unique_id_fresh :
    (base : Text) (ids : IdState)
    → (contains ids.used (unique_id base ids).0 ≡ false)
      × ((unique_id base ids).1.used ≡ (unique_id base ids).0 ∷ ids.used)
unique_id_fresh base ids = (
  unfold unique_id in
      free_suffix_fresh (suc (length ids.used)) base ids.used (suffix_of base ids.next_suffixes)
        (omega arith),
  unfold unique_id in refl,
)
