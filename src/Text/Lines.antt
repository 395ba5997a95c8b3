-- ===== src/Text/Lines.antt =====
-- `content.split("\n")` and `"\n".join(lines)`.
pub mod Parts
use ferumind.Common.{
  ℕ, suc, ◌+◌, ◌≡◌, refl, sym, ap, ◌∙◌, ◌≢◌, inl, inr, false, List, [], ◌∷◌, ◌++◌, append_assoc,
  arith, ◌==◌, if◌then◌else◌, ==_iff, Bool-cases, length,
}
use ferumind.Text.{Text}

abbrev pub newline : ℕ
newline = 10

-- The first line of a non-empty list of lines gets one more character in front.
abbrev pub on_first : ℕ → List Text → List Text
on_first c [] = (c ∷ []) ∷ []
on_first c (l ∷ ls) = (c ∷ l) ∷ ls

-- content.split("\n")
unfoldable pub split_lines : Text → List Text
split_lines [] = [] ∷ []
split_lines (c ∷ cs) =
    let rest = split_lines cs in if c == newline then [] ∷ rest else on_first c rest

-- "\n".join(lines)
unfoldable pub join_lines : List Text → Text
join_lines [] = []
join_lines (l ∷ []) = l
join_lines (l ∷ m ∷ ls) = l ++ newline ∷ join_lines (m ∷ ls)

unfoldable pub count_newlines : Text → ℕ
count_newlines [] = 0
count_newlines (c ∷ cs) = (if c == newline then 1 else 0) + count_newlines cs

-- No character of a line is a newline.
abbrev pub IsLine : Text → Type 0
IsLine [] = Unit
IsLine (c ∷ cs) = (c ≢ newline) × IsLine cs

abbrev pub AreLines : List Text → Type 0
AreLines [] = Unit
AreLines (l ∷ ls) = IsLine l × AreLines ls

abbrev pub NonEmpty {ℓ} : {A : Type ℓ} → List A → Type 0
NonEmpty [] = ⊥
NonEmpty (x ∷ xs) = Unit

pub split_lines-NonEmpty : (t : Text) → NonEmpty (split_lines t)
unfolding split_lines
split_lines-NonEmpty [] = tt
split_lines-NonEmpty (c ∷ cs) = elim (Bool-cases (c == newline)) [
  | inl e ↦ rw e tt
  | inr e ↦ rw e (on_first-NonEmpty c (split_lines cs))
]
  where
    on_first-NonEmpty : (d : ℕ) (ls : List Text) → NonEmpty (on_first d ls)
    on_first-NonEmpty d [] = tt
    on_first-NonEmpty d (l ∷ ls) = tt

join_lines-on_first :
    (c : ℕ) (ls : List Text) → NonEmpty ls → join_lines (on_first c ls) ≡ c ∷ join_lines ls
unfolding join_lines
join_lines-on_first c [] h = absurd h
join_lines-on_first c (l ∷ []) h = refl
join_lines-on_first c (l ∷ m ∷ ls) h = refl

join_lines-nil_cons :
    (ls : List Text) → NonEmpty ls → join_lines ([] ∷ ls) ≡ newline ∷ join_lines ls
unfolding join_lines
join_lines-nil_cons [] h = absurd h
join_lines-nil_cons (l ∷ ls) h = refl

-- Joining the lines of a text with newlines gives the text back.
pub join_lines-split_lines : (t : Text) → join_lines (split_lines t) ≡ t
unfolding split_lines
join_lines-split_lines [] = unfold join_lines in refl
join_lines-split_lines (c ∷ cs) = elim (Bool-cases (c == newline)) [
  | inl e ↦
      rw
        (
          e,
          join_lines-nil_cons (split_lines cs) (split_lines-NonEmpty cs),
          join_lines-split_lines cs,
        )
        (ap (λ d. d ∷ cs) (sym ((==_iff c newline).0 e)))
  | inr e ↦ rw (
    e,
    join_lines-on_first c (split_lines cs) (split_lines-NonEmpty cs),
    join_lines-split_lines cs,
  )
]

on_first-append :
    (c : ℕ) (xs ys : List Text) → NonEmpty xs → on_first c (xs ++ ys) ≡ on_first c xs ++ ys
on_first-append c [] ys h = absurd h
on_first-append c (x ∷ xs) ys h = refl

-- A newline between two texts separates their lines.
pub split_lines-append :
    (a b : Text) → split_lines (a ++ newline ∷ b) ≡ split_lines a ++ split_lines b
unfolding split_lines
split_lines-append [] b = refl
split_lines-append (c ∷ a) b = elim (Bool-cases (c == newline)) [
  | inl e ↦ rw (e, split_lines-append a b)
  | inr e ↦
      rw (e, split_lines-append a b)
        (on_first-append c (split_lines a) (split_lines b) (split_lines-NonEmpty a))
]

ne-newline : (c : ℕ) → c ≢ newline → (c == newline) ≡ false
ne-newline c h = ground arith

pub split_lines_of_line : (l : Text) → IsLine l → split_lines l ≡ l ∷ []
unfolding split_lines
split_lines_of_line [] h = refl
split_lines_of_line (c ∷ cs) (p, q) = rw (ne-newline c p, split_lines_of_line cs q)

-- Lines that hold no newline are found again.
pub split_lines-join_lines :
    (ls : List Text) → AreLines ls → NonEmpty ls → split_lines (join_lines ls) ≡ ls
unfolding join_lines
split_lines-join_lines [] a h = absurd h
split_lines-join_lines (l ∷ []) (p, a) h = split_lines_of_line l p
split_lines-join_lines (l ∷ m ∷ ls) (p, a) h =
    split_lines-append l (join_lines (m ∷ ls))
    ∙ rw (split_lines_of_line l p, split_lines-join_lines (m ∷ ls) a tt)

on_first-AreLines : (c : ℕ) (ls : List Text) → c ≢ newline → AreLines ls → AreLines (on_first c ls)
on_first-AreLines c [] h a = ((h, tt), tt)
on_first-AreLines c (l ∷ ls) h (p, a) = ((h, p), a)

pub split_lines-AreLines : (t : Text) → AreLines (split_lines t)
unfolding split_lines
split_lines-AreLines [] = (tt, tt)
split_lines-AreLines (c ∷ cs) = elim (Bool-cases (c == newline)) [
  | inl e ↦ rw e (tt, split_lines-AreLines cs)
  | inr e ↦ rw e (on_first-AreLines c (split_lines cs) (ground arith) (split_lines-AreLines cs))
]

length-on_first : (c : ℕ) (ls : List Text) → NonEmpty ls → length (on_first c ls) ≡ length ls
length-on_first c [] h = absurd h
length-on_first c (l ∷ ls) h = refl

-- There is one line more than there are newlines.
pub length-split_lines : (t : Text) → length (split_lines t) ≡ suc (count_newlines t)
unfolding split_lines count_newlines
length-split_lines [] = refl
length-split_lines (c ∷ cs) = elim (Bool-cases (c == newline)) [
  | inl e ↦ rw e (omega (arith, length-split_lines cs))
  | inr e ↦
      rw (e, length-on_first c (split_lines cs) (split_lines-NonEmpty cs))
        (omega (arith, length-split_lines cs))
]

pub join_lines-append :
    (xs ys : List Text)
    → NonEmpty xs
    → NonEmpty ys
    → join_lines (xs ++ ys) ≡ join_lines xs ++ newline ∷ join_lines ys
unfolding join_lines
join_lines-append [] ys h k = absurd h
join_lines-append (x ∷ []) [] h k = absurd k
join_lines-append (x ∷ []) (y ∷ ys) h k = refl
join_lines-append (x ∷ m ∷ xs) ys h k =
    ap (λ t. x ++ newline ∷ t) (join_lines-append (m ∷ xs) ys tt k)
    ∙ sym (append_assoc x (newline ∷ join_lines (m ∷ xs)) (newline ∷ join_lines ys))
