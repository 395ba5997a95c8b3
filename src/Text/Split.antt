-- ===== src/Text/Split.antt =====
-- `s.split(sep)` and `sep.join(parts)`, for a separator of one character.
use ferumind.Common.{
  ℕ, ◌≡◌, refl, sym, ap, inl, inr, List, [], ◌∷◌, ◌++◌, ◌==◌, if◌then◌else◌, ==_iff, Bool-cases,
}
use ferumind.Text.{Text}

-- The first part gets one more character in front.
abbrev pub extend_first : ℕ → List Text → List Text
extend_first c [] = (c ∷ []) ∷ []
extend_first c (part ∷ parts) = (c ∷ part) ∷ parts

-- s.split(sep)
unfoldable pub split_on : ℕ → Text → List Text
split_on sep [] = [] ∷ []
split_on sep (c ∷ cs) =
    let rest = split_on sep cs in if c == sep then [] ∷ rest else extend_first c rest

-- sep.join(parts)
unfoldable pub join_on : ℕ → List Text → Text
join_on sep [] = []
join_on sep (part ∷ []) = part
join_on sep (part ∷ next ∷ parts) = part ++ sep ∷ join_on sep (next ∷ parts)

-- There is a first part.
IsParts : List Text → Type 0
IsParts [] = ⊥
IsParts (part ∷ parts) = Unit

extend_first-IsParts : (c : ℕ) (parts : List Text) → IsParts (extend_first c parts)
unfolding IsParts
extend_first-IsParts c [] = tt
extend_first-IsParts c (part ∷ parts) = tt

split_on-IsParts : (sep : ℕ) (t : Text) → IsParts (split_on sep t)
unfolding split_on IsParts
split_on-IsParts sep [] = tt
split_on-IsParts sep (c ∷ cs) = elim (Bool-cases (c == sep)) [
  | inl e ↦ rw e tt
  | inr e ↦ rw e (extend_first-IsParts c (split_on sep cs))
]

join_on-extend_first :
    (sep c : ℕ) (parts : List Text)
    → IsParts parts
    → join_on sep (extend_first c parts) ≡ c ∷ join_on sep parts
unfolding join_on IsParts
join_on-extend_first sep c [] h = absurd h
join_on-extend_first sep c (part ∷ []) h = refl
join_on-extend_first sep c (part ∷ next ∷ parts) h = refl

join_on-nil :
    (sep : ℕ) (parts : List Text)
    → IsParts parts
    → join_on sep ([] ∷ parts) ≡ sep ∷ join_on sep parts
unfolding join_on IsParts
join_on-nil sep [] h = absurd h
join_on-nil sep (part ∷ parts) h = refl

-- Joining the parts of a text gives the text back.
pub join_on-split_on : (sep : ℕ) (t : Text) → join_on sep (split_on sep t) ≡ t
unfolding split_on
join_on-split_on sep [] = unfold join_on in refl
join_on-split_on sep (c ∷ cs) = elim (Bool-cases (c == sep)) [
  | inl e ↦
      rw (e, join_on-nil sep (split_on sep cs) (split_on-IsParts sep cs), join_on-split_on sep cs)
        (ap (λ d. d ∷ cs) (sym ((==_iff c sep).0 e)))
  | inr e ↦
      rw
        (
          e,
          join_on-extend_first sep c (split_on sep cs) (split_on-IsParts sep cs),
          join_on-split_on sep cs,
        )
        refl
]
