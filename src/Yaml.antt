-- ===== src/Yaml.antt =====
-- core/yaml_safe.py: loading YAML within bounds.
pub mod Safety
use ferumind.Common.{
  ℕ, zero, suc, ◌+◌, ◌-◌, ◌*◌, ◌/◌, ◌%◌, ◌≤◌, ◌<◌, min, max, ◌≡◌, refl, sym, ap, ap₂, ◌∙◌, subst,
  ◌≡⟨◌⟩◌, ◌∎, ◌≢◌, ◌↔◌, ◌⊎◌, inl, inr, Bool, true, false, not, ◌&&◌, ◌||◌, Option, none, some, List,
  [], ◌∷◌, ◌++◌, map, append-nil, append_assoc, arith, ltb, leb, ◌==◌, if◌then◌else◌, ==_iff,
  ==_refl, leb→le, ltb→lt, Bool-cases, Option-cases, if_elim, is_none, ℤ, pos, negsuc, int_lt,
  to_nat, Kind, Error, Result, ok, err, ◌>>=◌, ◌>>◌, raise, raise_if, raise_at, raise_at_if,
  translate, >>=-eq-ok, length, get_elem?, get_or, set, take, drop, length-append, take-append-drop,
  length-take, length-drop, take-append_length, drop-append_length, drop-nil, take-nil, take_all,
  drop_all, drop-suc-drop, take_of_append, drop_of_append, drop-drop, take-append-lt,
  drop-append-lt, filter, get_last?, run_length, run_length-le, filter-append,
}
use ferumind.Text.{Text}
use ferumind.Text.Chars.{codes, text_eq, utf8_length}
use ferumind.Runtime.{Runtime}
use ferumind.Runtime.Json.{Loaded, contains}
use ferumind.Runtime.Yaml.{
  Token, opens, closes, refers, plain, Node, scalar_node, sequence_node, mapping_node, Nodes, nil,
  cons, Pairs, end, pair,
}

abbrev pub max_yaml_tokens : ℕ
max_yaml_tokens = 20_000

abbrev pub max_yaml_depth : ℕ
max_yaml_depth = 64

abbrev pub yaml_string_tag : Text
yaml_string_tag = codes "tag:yaml.org,2002:str"

-- The loop over the tokens, from a count and a depth on: no limit is exceeded.
unfoldable pub tokens_allowed : ℕ → ℕ → ℕ → ℕ → List Token → Bool
tokens_allowed max_tokens max_depth count depth [] = true
tokens_allowed max_tokens max_depth count depth (t ∷ ts) = leb (count + 1) max_tokens && elim t [
  | refers ↦ false
  | opens ↦
      leb (depth + 1) max_depth && tokens_allowed max_tokens max_depth (count + 1) (depth + 1) ts
  | closes ↦ tokens_allowed max_tokens max_depth (count + 1) (depth - 1) ts
  | plain ↦ tokens_allowed max_tokens max_depth (count + 1) depth ts
]

-- A key is a scalar with the tag of strings; its text.
unfoldable pub string_key : Node → Option Text
string_key (scalar_node tag value) = if text_eq tag yaml_string_tag then some value else none
string_key (sequence_node ns) = none
string_key (mapping_node ps) = none

-- _validate_node: it raises nothing
unfoldable mutual
  pub node_allowed : Node → Bool
  node_allowed (scalar_node tag value) = true
  node_allowed (sequence_node ns) = nodes_allowed ns
  node_allowed (mapping_node ps) = pairs_allowed [] ps

  pub nodes_allowed : Nodes → Bool
  nodes_allowed nil = true
  nodes_allowed (cons n ns) = node_allowed n && nodes_allowed ns

  pub pairs_allowed : List Text → Pairs → Bool
  pairs_allowed seen end = true
  pairs_allowed seen (pair k v ps) = elim (string_key k) [
    | none ↦ false
    | some key ↦ not (contains seen key) && (node_allowed v && pairs_allowed (key ∷ seen) ps)
  ]

module _ (rt : Runtime) where
  -- The tree that `yaml.compose` builds passes the checks; an empty document has none.
  unfoldable pub composed_allowed : Text → Bool
  composed_allowed text = elim (rt.compose_yaml text) [
    | none ↦ false
    | some root ↦ elim root [ none ↦ true | some n ↦ node_allowed n ]
  ]

  -- safe_load_yaml: `none` for a `yaml.YAMLError`; a `ValueError` of `yaml.safe_load` is a value
  unfoldable pub safe_load_yaml : Text → ℕ → ℕ → ℕ → Option Loaded
  safe_load_yaml text max_bytes max_tokens max_depth = elim (rt.scan_yaml text) [
    | none ↦ none
    | some tokens ↦
        if leb (utf8_length text) max_bytes
          && (tokens_allowed max_tokens max_depth 0 0 tokens && composed_allowed text)
        then rt.load_yaml text
        else none
  ]
