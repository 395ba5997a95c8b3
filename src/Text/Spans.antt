-- ===== src/Text/Spans.antt =====
-- Runs of characters, and where a line starts and ends.
use ferumind.Common.{
  ℕ, ◌≡◌, ap, ◌∙◌, ◌⊎◌, inl, inr, Bool, true, [], ◌∷◌, ◌++◌, ◌==◌, ==_iff, Bool-cases,
}
use ferumind.Text.{Text}
use ferumind.Text.Chars.{take_while}
use ferumind.Text.Lines.{newline}

-- All characters of a text.
abbrev pub AllOf : (ℕ → Bool) → Text → Type 0
AllOf p [] = Unit
AllOf p (c ∷ cs) = (p c ≡ true) × AllOf p cs

-- Where a line starts: at the start of the text, if that starts one, or behind a newline.
abbrev pub StartsLine : Bool → Text → Type 0
StartsLine at_start front =
    ((at_start ≡ true) × (front ≡ [])) ⊎ ((f : Text) × (front ≡ f ++ newline ∷ []))

-- Where a line ends: at the end of the text or in front of a newline.
abbrev pub EndsLine : Text → Type 0
EndsLine rest = (rest ≡ []) ⊎ ((r : Text) × (rest ≡ newline ∷ r))

pub take_while-AllOf : (p : ℕ → Bool) (t : Text) → AllOf p (take_while p t)
unfolding take_while
take_while-AllOf p [] = tt
take_while-AllOf p (c ∷ cs) = elim (Bool-cases (p c)) [
  | inl e ↦ rw e (e, take_while-AllOf p cs)
  | inr e ↦ rw e tt
]

pub starts_later :
    (at_start : Bool) (c : ℕ) (front : Text)
    → StartsLine (c == newline) front
    → StartsLine at_start (c ∷ front)
starts_later at_start c front (inl (e, p)) =
    inr ([], ap (λ d. d ∷ front) ((==_iff c newline).0 e) ∙ ap (λ t. newline ∷ t) p)
starts_later at_start c front (inr (f, p)) = inr (c ∷ f, ap (λ t. c ∷ t) p)
