-- ===== src/Proposals/Managed.antt =====
-- What a full replacement of a managed document keeps of its frontmatter.
use ferumind.Common.{
  ◌≡◌, refl, ap, ◌∙◌, subst, inl, inr, Bool, true, false, not, Option, none, some, List, [], ◌∷◌,
  arith, Bool-cases, Kind, ok, raise_if, translate, >>=-eq-ok,
}
use ferumind.Text.{Text}
use ferumind.Text.Chars.{codes, text_eq, text_eq→eq}
use ferumind.Runtime.Json.{JsonObject, str, lookup, contains}
use ferumind.Frontmatter.{required_frontmatter_keys, has_text}
use ferumind.Documents.{frontmatter_str}
use ferumind.Frontmatter.Texts.{HasText}
use ferumind.Documents.Identity.{HasText-frontmatter_str}
use ferumind.Proposals.FieldLines.{IsFieldLine, frontmatter_field_line-IsFieldLine}
use ferumind.Proposals.FullMode.{
  check_required, differs, check_identity, frontmatter_field_line, check_lines, check_stamp,
  description_of, validate_full_mode_frontmatter,
}

-- Each key has a text that is not blank, which is the old text where there was one.
abbrev pub KeepsIdentity : JsonObject → JsonObject → List Text → Type 0
KeepsIdentity existing_fm new_fm [] = Unit
KeepsIdentity existing_fm new_fm (key ∷ keys) =
    ((new : Text) × HasText new_fm key new
      × ((old : Text) → lookup key existing_fm ≡ some (str old) → old ≡ new))
    × KeepsIdentity existing_fm new_fm keys

-- A time has the old text, which is not blank, on the line that it had.
abbrev pub KeepsStamp : JsonObject → JsonObject → Text → Text → Text → Type 0
KeepsStamp existing_fm new_fm existing_content new_content key =
    ((time : Text) × HasText existing_fm key time × HasText new_fm key time)
    × ((line : Text) × IsFieldLine existing_content key line × IsFieldLine new_content key line)

differs-same :
    (existing_fm new_fm : JsonObject) (key text : Text)
    → differs existing_fm new_fm key ≡ false
    → lookup key existing_fm ≡ some (str text)
    → text ≡ frontmatter_str new_fm key []
unfolding differs
differs-same existing_fm new_fm key text h e =
    text_eq→eq text (frontmatter_str new_fm key []) (ground (arith, h, e))

raise_if-ok : (b : Bool) (k : Kind) {u : Unit {0}} → raise_if b k ≡ ok u → b ≡ false
raise_if-ok true k h = cc
raise_if-ok false k h = refl

check-KeepsIdentity :
    (existing_fm new_fm : JsonObject) (keys : List Text)
    → check_required new_fm keys ≡ ok tt
    → check_identity existing_fm new_fm keys ≡ ok tt
    → KeepsIdentity existing_fm new_fm keys
unfolding check_required check_identity
check-KeepsIdentity existing_fm new_fm [] h k = tt
check-KeepsIdentity existing_fm new_fm (key ∷ keys) h k =
    let (u, e, h₁) =
      >>=-eq-ok (raise_if (not (has_text new_fm key)) Kind.frontmatter_required) _ h in
    let (v, f, k₁) =
      >>=-eq-ok (raise_if (differs existing_fm new_fm key) Kind.frontmatter_required) _ k in
    let d = raise_if-ok (differs existing_fm new_fm key) Kind.frontmatter_required f in
    let t = raise_if-ok (not (has_text new_fm key)) Kind.frontmatter_required e in
    (
      (
        frontmatter_str new_fm key [],
        HasText-frontmatter_str new_fm key (frontmatter_str new_fm key []) (ground (arith, t)) refl,
        λ text g. differs-same existing_fm new_fm key text d g,
      ),
      check-KeepsIdentity existing_fm new_fm keys h₁ k₁,
    )

check_required-has_text :
    (new_fm : JsonObject) (keys : List Text) (key : Text)
    → check_required new_fm keys ≡ ok tt
    → contains keys key ≡ true
    → has_text new_fm key ≡ true
unfolding check_required contains
check_required-has_text new_fm [] key h c = cc
check_required-has_text new_fm (k ∷ keys) key h c =
    let (u, e, h₁) = >>=-eq-ok (raise_if (not (has_text new_fm k)) Kind.frontmatter_required) _ h in
    let t = raise_if-ok (not (has_text new_fm k)) Kind.frontmatter_required e in
    elim (Bool-cases (text_eq k key)) [
      | inl same ↦ subst (λ x. has_text new_fm x ≡ true) (text_eq→eq k key same) (ground (arith, t))
      | inr other ↦ check_required-has_text new_fm keys key h₁ (ground arith)
    ]

check_lines-ok :
    (existing_line new_line : Option Text)
    → check_lines existing_line new_line ≡ ok tt
    → (line : Text) × (existing_line ≡ some line) × (new_line ≡ some line)
check_lines-ok none new_line h = cc
check_lines-ok (some a) none h = cc
check_lines-ok (some a) (some b) h =
    let t = raise_if-ok (not (text_eq b a)) Kind.frontmatter_protected h in
    (a, refl, ap some (text_eq→eq b a (ground (arith, t))))

check_stamp-KeepsStamp :
    (existing_fm new_fm : JsonObject) (existing_content new_content key : Text)
    → check_stamp existing_fm new_fm existing_content new_content key ≡ ok tt
    → KeepsStamp existing_fm new_fm existing_content new_content key
unfolding check_stamp
check_stamp-KeepsStamp existing_fm new_fm existing_content new_content key h =
    let (u₁, e₁, h₁) =
      >>=-eq-ok (raise_if (not (has_text existing_fm key)) Kind.frontmatter_required) _ h in
    let (u₂, e₂, h₂) =
      >>=-eq-ok (raise_if (not (has_text new_fm key)) Kind.frontmatter_required) _ h₁ in
    let (u₃, e₃, h₃) =
      >>=-eq-ok
        (raise_if
          (not (text_eq (frontmatter_str new_fm key []) (frontmatter_str existing_fm key [])))
          Kind.frontmatter_protected)
        _ h₂ in
    let (a, e₄, h₄) = >>=-eq-ok (frontmatter_field_line existing_content key) _ h₃ in
    let (b, e₅, h₅) = >>=-eq-ok (frontmatter_field_line new_content key) _ h₄ in
    let (line, p, q) = check_lines-ok a b h₅ in
    let t = raise_if-ok (not (has_text existing_fm key)) Kind.frontmatter_required e₁ in
    let n = raise_if-ok (not (has_text new_fm key)) Kind.frontmatter_required e₂ in
    let s =
      raise_if-ok
        (not (text_eq (frontmatter_str new_fm key []) (frontmatter_str existing_fm key [])))
        Kind.frontmatter_protected e₃ in
    let old = frontmatter_str existing_fm key [] in
    let kept = text_eq→eq (frontmatter_str new_fm key []) old (ground (arith, s)) in
    (
      (
        old,
        HasText-frontmatter_str existing_fm key old (ground (arith, t)) refl,
        HasText-frontmatter_str new_fm key old (ground (arith, n)) kept,
      ),
      (
        line,
        frontmatter_field_line-IsFieldLine existing_content key (e₄ ∙ ap ok p),
        frontmatter_field_line-IsFieldLine new_content key (e₅ ∙ ap ok q),
      ),
    )

-- Where the frontmatter of a full replacement is accepted, the new mapping holds an id, a type and
-- a project that are texts and not blank, each the old text where there was one, and the project
-- is the one asserted; both mappings hold the same text, which is not blank, for each of the
-- created and updated times; and for each time the frontmatter blocks of both documents hold the
-- same whole line, which begins with the key, blanks and a colon.
pub validate_full_mode_frontmatter_lem :
    (existing_fm new_fm : JsonObject) (project_key existing_content new_content : Text)
    → validate_full_mode_frontmatter existing_fm new_fm project_key existing_content new_content
      ≡ ok tt
    → KeepsIdentity existing_fm new_fm required_frontmatter_keys
      × KeepsStamp existing_fm new_fm existing_content new_content (codes "created")
      × KeepsStamp existing_fm new_fm existing_content new_content (codes "updated")
      × HasText new_fm (codes "project") project_key
unfolding validate_full_mode_frontmatter contains
validate_full_mode_frontmatter_lem existing_fm new_fm project_key existing_content new_content h =
    let (u₁, e₁, h₁) = >>=-eq-ok (check_required new_fm required_frontmatter_keys) _ h in
    let (u₂, e₂, h₂) =
      >>=-eq-ok (translate Kind.frontmatter_required (description_of new_fm)) _ h₁ in
    let (u₃, e₃, h₃) =
      >>=-eq-ok (check_identity existing_fm new_fm required_frontmatter_keys) _ h₂ in
    let (u₄, e₄, h₄) =
      >>=-eq-ok (check_stamp existing_fm new_fm existing_content new_content (codes "created")) _
        h₃ in
    let (u₅, e₅, h₅) =
      >>=-eq-ok (check_stamp existing_fm new_fm existing_content new_content (codes "updated")) _
        h₄ in
    let s =
      raise_if-ok (not (text_eq (frontmatter_str new_fm (codes "project") []) project_key))
        Kind.frontmatter_required h₅ in
    let named =
      text_eq→eq (frontmatter_str new_fm (codes "project") []) project_key (ground (arith, s)) in
    let identity = check-KeepsIdentity existing_fm new_fm required_frontmatter_keys e₁ e₃ in
    (
      identity,
      check_stamp-KeepsStamp existing_fm new_fm existing_content new_content (codes "created") e₄,
      check_stamp-KeepsStamp existing_fm new_fm existing_content new_content (codes "updated") e₅,
      HasText-frontmatter_str new_fm (codes "project") project_key
          (check_required-has_text new_fm required_frontmatter_keys (codes "project") e₁ refl)
          named,
    )
