-- ===== src/Patches/Exact/Batch.antt =====
-- Batches of exact edits of core/patches.py.
use ferumind.Common.{
  ℕ, ◌+◌, ◌≤◌, ◌≡◌, subst, Option, some, List, [], ◌∷◌, arith, ltb, Kind, ok, raise_if, raise_at_if,
  >>=-eq-ok, length,
}
use ferumind.Text.{Text}
use ferumind.Text.Chars.{is_empty, text_eq}
use ferumind.Runtime.{Runtime}
use ferumind.DocumentMap.{LineRange, frontmatter_line_range}
use ferumind.EditTargets.Exact.{ExactMatch}
use ferumind.Patches.{PreparedPatch, AppliedEdit, finalize}
use ferumind.Patches.Search.{splice}
use ferumind.Patches.Exact.{
  ExactEdit, max_multi_edits, select_exact_match, apply_edit, apply_edits, prepare_multi_edit_patch,
}
use ferumind.Patches.Exact.Selection.{IsBodyMatch, select_exact_match_lem}

-- One edit: a match of its old text, behind the frontmatter of the text as it is then, is replaced.
pub record IsEdit (edit : ExactEdit) (before after : Text) : Type 0 where
  pub found : ExactMatch
  pub fm : Option LineRange × ℕ
  pub range : frontmatter_line_range before ≡ ok fm
  pub matched : IsBodyMatch before edit.old_string fm.0 found
  pub replaced : after ≡ splice before found.start_offset found.end_offset edit.new_string

-- The edits one after another, each on the text that the one before it leaves.
pub data Edits : List ExactEdit → Text → Text → Type 0 where
  done : {t : Text} → Edits [] t t
  edited :
      {edit : ExactEdit} {edits : List ExactEdit} {before between after : Text}
      → IsEdit edit before between
      → Edits edits between after
      → Edits (edit ∷ edits) before after

apply_edit-IsEdit :
    (index : ℕ) (edit : ExactEdit) (before : Text) {after : Text × ExactMatch}
    → apply_edit index edit before ≡ ok after
    → IsEdit edit before after.0
unfolding apply_edit
apply_edit-IsEdit index edit before {after} h =
    let (_, _, h₁) =
      >>=-eq-ok (raise_at_if (is_empty edit.old_string) Kind.validation (some index)) _ h in
    let (_, _, h₂) =
      >>=-eq-ok (raise_at_if (text_eq edit.old_string edit.new_string) Kind.validation (some index))
        _ h₁ in
    let (m, e, h₃) =
      >>=-eq-ok (select_exact_match before edit.old_string edit.occurrence (some index)) _ h₂ in
    let (fm, f, matched) =
      select_exact_match_lem before edit.old_string edit.occurrence (some index) e in
    record { found = m; fm = fm; range = f; matched = matched; replaced = ground arith }

apply_edits-Edits :
    (index : ℕ) (edits : List ExactEdit) (before : Text) {result : Text × List AppliedEdit}
    → apply_edits index edits before ≡ ok result
    → Edits edits before result.0
unfolding apply_edits
apply_edits-Edits index [] before {result} h =
    subst (Edits [] before) (let e : before ≡ result.0 = ground arith in e) Edits.done
apply_edits-Edits index (edit ∷ edits) before {result} h =
    let (one, e, h₁) = >>=-eq-ok (apply_edit index edit before) _ h in
    let (rest, f, h₂) = >>=-eq-ok (apply_edits (index + 1) edits one.0) _ h₁ in
    subst (Edits (edit ∷ edits) before) (let e : rest.0 ≡ result.0 = ground arith in e) (
      Edits.edited (apply_edit-IsEdit index edit before e)
        (apply_edits-Edits (index + 1) edits one.0 f))

-- What a batch that is prepared does.
pub record IsBatch (rt : Runtime) (content : Text) (edits : List ExactEdit) (p : PreparedPatch)
    : Type 0 where
  pub some_edits : 1 ≤ length edits
  pub bounded : length edits ≤ max_multi_edits
  pub last : Text
  pub run : Edits edits content last
  pub finalized : finalize rt content last ≡ ok p.new_full_content

-- Where a batch is prepared, it has from 1 to `max_multi_edits` edits; each edit replaces, in the
-- text that the edits before it leave, a match of its old text behind the frontmatter; and the
-- last text passes the guard.
pub prepare_multi_edit_patch_lem :
    (rt : Runtime) (content : Text) (edits : List ExactEdit) {p : PreparedPatch}
    → prepare_multi_edit_patch rt content edits ≡ ok p
    → IsBatch rt content edits p
unfolding prepare_multi_edit_patch
prepare_multi_edit_patch_lem rt content edits {p} h =
    let (_, e₁, h₁) = >>=-eq-ok (raise_if (is_empty edits) Kind.validation) _ h in
    let (_, e₂, h₂) =
      >>=-eq-ok (raise_if (ltb max_multi_edits (length edits)) Kind.validation) _ h₁ in
    let (result, f, h₃) = >>=-eq-ok (apply_edits 0 edits content) _ h₂ in
    let (text, g, h₄) = >>=-eq-ok (finalize rt content result.0) _ h₃ in
    record {
      some_edits = ground arith;
      bounded = ground arith;
      last = result.0;
      run = apply_edits-Edits 0 edits content f;
      finalized = ground arith;
    }
