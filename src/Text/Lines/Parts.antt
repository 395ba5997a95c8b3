-- ===== src/Text/Lines/Parts.antt =====
-- Lines that are taken out of a text and put back.
use ferumind.Common.{
  ℕ, zero, suc, ◌≤◌, ◌≡◌, refl, ap, List, [], ◌∷◌, ◌++◌, arith, length, take, drop,
  take-append-drop,
}
use ferumind.Text.{Text}
use ferumind.Text.Lines.{AreLines, NonEmpty, split_lines, join_lines}
use ferumind.Text.Lines.{split_lines-join_lines, split_lines-AreLines, split_lines-NonEmpty}

pub take-AreLines : (n : ℕ) (ls : List Text) → AreLines ls → AreLines (take n ls)
take-AreLines zero ls a = tt
take-AreLines (suc n) [] a = tt
take-AreLines (suc n) (l ∷ ls) (p, a) = (p, take-AreLines n ls a)

pub drop-AreLines : (n : ℕ) (ls : List Text) → AreLines ls → AreLines (drop n ls)
drop-AreLines zero ls a = a
drop-AreLines (suc n) [] a = tt
drop-AreLines (suc n) (l ∷ ls) (p, a) = drop-AreLines n ls a

pub append-AreLines : (xs ys : List Text) → AreLines xs → AreLines ys → AreLines (xs ++ ys)
append-AreLines [] ys a b = b
append-AreLines (x ∷ xs) ys (p, a) b = (p, append-AreLines xs ys a b)

pub append-NonEmpty_right {ℓ} : {A : Type ℓ} (xs ys : List A) → NonEmpty ys → NonEmpty (xs ++ ys)
append-NonEmpty_right [] ys h = h
append-NonEmpty_right (x ∷ xs) ys h = tt

pub append-NonEmpty_left {ℓ} : {A : Type ℓ} (xs ys : List A) → NonEmpty xs → NonEmpty (xs ++ ys)
append-NonEmpty_left [] ys h = absurd h
append-NonEmpty_left (x ∷ xs) ys h = tt

pub length-NonEmpty {ℓ} : {A : Type ℓ} (xs : List A) → 1 ≤ length xs → NonEmpty xs
length-NonEmpty [] h = absurd (omega arith)
length-NonEmpty (x ∷ xs) h = tt

-- A list is its part in front of `a`, the part from `a` to `b`, and the rest.
pub append_three_parts {ℓ} :
    {A : Type ℓ} (a b : ℕ) (xs : List A)
    → a ≤ b
    → take a xs ++ (drop a (take b xs) ++ drop b xs) ≡ xs
append_three_parts zero b xs h = take-append-drop b xs
append_three_parts (suc a) zero xs h = absurd (omega arith)
append_three_parts (suc a) (suc b) [] h = refl
append_three_parts (suc a) (suc b) (x ∷ xs) h =
    ap (λ t. x ∷ t) (append_three_parts a b xs (omega arith))

-- The lines of a text that is put together from lines in front, a text, and lines behind.
pub split_lines_of_parts :
    (front back : List Text) (t : Text)
    → AreLines front
    → AreLines back
    → split_lines (join_lines (front ++ (split_lines t ++ back))) ≡ front ++ (split_lines t ++ back)
split_lines_of_parts front back t a b =
    split_lines-join_lines (front ++ (split_lines t ++ back))
      (append-AreLines front (split_lines t ++ back) a
        (append-AreLines (split_lines t) back (split_lines-AreLines t) b))
      (append-NonEmpty_right front (split_lines t ++ back)
        (append-NonEmpty_left (split_lines t) back (split_lines-NonEmpty t)))
