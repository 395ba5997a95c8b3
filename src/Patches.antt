-- ===== src/Patches.antt =====
-- core/patches.py: prepared patches, and the guard that every patch passes.
pub mod Lines
pub mod Insert
pub mod Search
pub mod Exact
pub mod Metadata
pub mod Finalize
use ferumind.Common.{
  ℕ, zero, suc, ◌+◌, ◌-◌, ◌*◌, ◌/◌, ◌%◌, ◌≤◌, ◌<◌, min, max, ◌≡◌, refl, sym, ap, ◌∙◌, subst, ◌≡⟨◌⟩◌,
  ◌∎, ◌≢◌, ◌↔◌, ◌⊎◌, inl, inr, Bool, true, false, not, ◌&&◌, ◌||◌, Option, none, some, List, [],
  ◌∷◌, ◌++◌, map, append-nil, append_assoc, arith, ltb, leb, ◌==◌, if◌then◌else◌, ==_iff, ==_refl,
  leb→le, ltb→lt, Bool-cases, Option-cases, if_elim, is_none, ℤ, pos, negsuc, int_lt, to_nat, Kind,
  Error, Result, ok, err, ◌>>=◌, ◌>>◌, raise, raise_if, raise_at, raise_at_if, translate, >>=-eq-ok,
  length, get_elem?, get_or, set, take, drop, length-append, take-append-drop, length-take,
  length-drop, take-append_length, drop-append_length, drop-nil, take_all, drop_all, drop-suc-drop,
  take_of_append, drop_of_append, drop-drop, take-append-lt, drop-append-lt, filter, get_last?,
  run_length, run_length-le, filter-append,
}
use ferumind.Text.{Text}
use ferumind.Runtime.{Runtime}
use ferumind.Runtime.Json.{JsonObject}
use ferumind.Frontmatter.{refresh_updated_if_managed, is_managed_markdown}
use ferumind.EditTargets.Matches.{FindMode}

pub data ProposalKind : Type 0 where
  section range search_replace exact_replace multi_edit frontmatter insert body full : ProposalKind

pub data AnchorKind : Type 0 where
  line section match end_of_file : AnchorKind

pub data Position : Type 0 where
  before after : Position

-- `int | Literal["all"] | None`
pub data Occurrence : Type 0 where
  all : Occurrence
  at : ℤ → Occurrence
  unset : Occurrence

pub record MatchSpan : Type 0 where
  pub start_line : ℕ
  pub end_line : ℕ

pub record AppliedEdit : Type 0 where
  pub edit_index : ℕ
  pub start_line : ℕ
  pub end_line : ℕ
  pub occurrence : Option ℤ
  pub old_string : Text
  pub new_string : Text

-- The `target` object of each kind of patch, its fields in the order of the source.
pub data Target : Type 0 where
  section_target :
      (section_id : Text) (start_line end_line : ℕ) (section_sha256 new_sha256 : Text) → Target
  range_target : (start_line end_line : ℕ) (range_sha256 new_sha256 : Text) → Target
  search_target :
      (find replace : Text) (mode : FindMode) (case_sensitive include_code_blocks : Bool)
      (occurrence : Occurrence) (match_count : ℕ)
      → Target
  insert_target :
      (anchor_kind : AnchorKind) (position : Position) (insert_index : ℕ) (line_number : Option ℤ)
      (section_id match_text : Option Text) (match_occurrence : Option ℤ) (insert_sha256 : Text)
      → Target
  exact_target :
      (old_string new_string : Text) (occurrence : Occurrence) (match_count : ℕ)
      (match_spans : List MatchSpan)
      → Target
  multi_target : (edit_count : ℕ) (edits : List AppliedEdit) → Target
  frontmatter_target : (set_values : JsonObject) (set_keys removed_keys : List Text) → Target

pub record PreparedPatch : Type 0 where
  pub proposal_kind : ProposalKind
  pub new_full_content : Text
  pub target_before_sha256 : Option Text
  pub target : Target

-- _finalize
unfoldable pub finalize : Runtime → Text → Text → Result Text
finalize rt original new_full_content = do
  finalized ← refresh_updated_if_managed rt new_full_content
  managed ← is_managed_markdown rt original
  still ← if managed then is_managed_markdown rt finalized else ok true
  raise_if (not still) Kind.frontmatter_required
  ok finalized
