-- ===== src/Frontmatter/Stamp.antt =====
-- The line that `set_frontmatter_updated` replaces or inserts.
use ferumind.Common.{
  ◌≡◌, refl, sym, ap, ◌∙◌, subst, inl, inr, Bool, true, not, none, some, List, [], ◌∷◌, ◌++◌,
  append_assoc, arith, ◌==◌, if◌then◌else◌, ==_iff, Bool-cases, Option-cases, drop,
}
use ferumind.Text.{Text}
use ferumind.Text.Chars.{
  codes, is_space, lstrip, strip, take_while, drop_while, starts_with, text_eq, text_eq→eq,
}
use ferumind.Text.Chars.{starts_with→append, take_while-append-drop_while}
use ferumind.Text.Lines.{newline}
use ferumind.Text.Spans.{StartsLine, EndsLine, starts_later}
use ferumind.Frontmatter.{match_updated, sub_updated, insert_at_close}
use ferumind.Frontmatter.Match.{dashes}

-- The old line starts with the key `updated`, at the start of a line, and its rest is replaced.
pub record IsReplaced (start : Bool) (line block stamped : Text) : Type 0 where
  pub front : Text
  pub old : Text
  pub rest : Text
  pub whole : block ≡ front ++ (codes "updated" ++ (old ++ rest))
  pub stamps : stamped ≡ front ++ (line ++ rest)
  pub starts : StartsLine start front
  pub stops : EndsLine rest

-- The line is new, in front of a line of dashes.
pub record IsInserted (line : Text) (lines stamped : List Text) : Type 0 where
  pub before : List Text
  pub close : Text
  pub after : List Text
  pub whole : lines ≡ before ++ close ∷ after
  pub stamps : stamped ≡ before ++ line ∷ close ∷ after
  pub closes : strip close ≡ dashes

drop_while-EndsLine : (t : Text) → EndsLine (drop_while (λ d. not (d == newline)) t)
unfolding drop_while
drop_while-EndsLine [] = inl refl
drop_while-EndsLine (c ∷ cs) = elim (Bool-cases (c == newline)) [
  | inl e ↦ rw e (inr (cs, ap (λ d. d ∷ cs) ((==_iff c newline).0 e)))
  | inr e ↦ rw e (drop_while-EndsLine cs)
]

lstrip_splits : (t : Text) → t ≡ take_while is_space t ++ lstrip t
unfolding lstrip
lstrip_splits t = sym (take_while-append-drop_while is_space t)

match_updated-parts :
    (t : Text) {rest : Text}
    → match_updated t ≡ some rest
    → (old : Text) × (t ≡ codes "updated" ++ (old ++ rest)) × EndsLine rest
unfolding match_updated
match_updated-parts t {rest} h = elim (Bool-cases (starts_with t (codes "updated"))) [
  | inr e ↦ absurd (cc)
  | inl e ↦ go e (lstrip (drop 7 t)) refl
]
  where
    go :
        starts_with t (codes "updated") ≡ true
        → (u : Text) → lstrip (drop 7 t) ≡ u
        → (old : Text) × (t ≡ codes "updated" ++ (old ++ rest)) × EndsLine rest
    go e [] p = absurd (ground (arith, p))
    go e (c ∷ cs) p =
        let tail : drop_while (λ d. not (d == newline)) cs ≡ rest = ground (arith, p) in
        let value = take_while (λ d. not (d == newline)) cs in
        let parted : cs ≡ value ++ rest =
          sym (take_while-append-drop_while (λ d. not (d == newline)) cs)
          ∙ ap (λ u. value ++ u) tail in
        let blanks = take_while is_space (drop 7 t) in
        (
          blanks ++ c ∷ value,
          starts_with→append t (codes "updated") e
              ∙ ap (λ u. codes "updated" ++ u)
                  (lstrip_splits (drop 7 t)
                    ∙ ap (λ u. blanks ++ u) (p ∙ ap (λ u. c ∷ u) parted)
                    ∙ sym (append_assoc blanks (c ∷ value) rest)),
          subst EndsLine tail (drop_while-EndsLine cs),
        )

pub sub_updated-IsReplaced :
    (line : Text) (start : Bool) (t : Text) {stamped : Text}
    → sub_updated line start t ≡ some stamped
    → IsReplaced start line t stamped
unfolding sub_updated
sub_updated-IsReplaced line start [] h = absurd (cc)
sub_updated-IsReplaced line start (c ∷ cs) {stamped} h =
    elim (Option-cases (if start then match_updated (c ∷ cs) else none)) [
      | inl e ↦ elim (Option-cases (sub_updated line (c == newline) cs)) [
        | inl n ↦ absurd (ground (arith, e, n))
        | inr (u, m) ↦
            let r = sub_updated-IsReplaced line (c == newline) cs m in
            let same : c ∷ u ≡ stamped = ground (arith, e, m) in
            record {
              front = c ∷ r.front;
              old = r.old;
              rest = r.rest;
              whole = ap (λ t. c ∷ t) r.whole;
              stamps = sym same ∙ ap (λ t. c ∷ t) r.stamps;
              starts = starts_later start c r.front r.starts;
              stops = r.stops;
            }
      ]
      | inr (rest, e) ↦
          let begins : start ≡ true = ground (arith, e) in
          let matched : match_updated (c ∷ cs) ≡ some rest = ground (arith, e) in
          let (old, whole, stops) = match_updated-parts (c ∷ cs) matched in
          let same : line ++ rest ≡ stamped = ground (arith, e) in
          record {
            front = [];
            old = old;
            rest = rest;
            whole = whole;
            stamps = sym same;
            starts = inl (begins, refl);
            stops = stops;
          }
    ]

pub insert_at_close-IsInserted :
    (line : Text) (ls : List Text) {ms : List Text}
    → insert_at_close line ls ≡ some ms
    → IsInserted line ls ms
unfolding insert_at_close
insert_at_close-IsInserted line [] h = absurd (cc)
insert_at_close-IsInserted line (l ∷ ls) {ms} h = elim (Option-cases (insert_at_close line ls)) [
  | inr (ns, e) ↦
      let r = insert_at_close-IsInserted line ls e in
      let same : l ∷ ns ≡ ms = ground (arith, e) in
      record {
        before = l ∷ r.before;
        close = r.close;
        after = r.after;
        whole = ap (λ t. l ∷ t) r.whole;
        stamps = sym same ∙ ap (λ t. l ∷ t) r.stamps;
        closes = r.closes;
      }
  | inl e ↦
      let closing : text_eq (strip l) dashes ≡ true = ground (arith, e) in
      let same : line ∷ l ∷ ls ≡ ms = ground (arith, e) in
      record {
        before = [];
        close = l;
        after = ls;
        whole = refl;
        stamps = sym same;
        closes = text_eq→eq (strip l) dashes closing;
      }
]

-- The new line is in front of some line of dashes, where there is one.
pub insert_at_close-found :
    (line : Text) (xs : List Text) (l : Text) (ys : List Text)
    → strip l ≡ dashes
    → (ms : List Text) × (insert_at_close line (xs ++ l ∷ ys) ≡ some ms)
unfolding insert_at_close text_eq
insert_at_close-found line [] l ys h = elim (Option-cases (insert_at_close line ys)) [
  | inl e ↦ (line ∷ l ∷ ys, (rw e (rw h refl)))
  | inr (ms, e) ↦ (l ∷ ms, rw e refl)
]
insert_at_close-found line (x ∷ xs) l ys h =
    let (ms, e) = insert_at_close-found line xs l ys h in (x ∷ ms, rw e refl)
