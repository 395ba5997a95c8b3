-- ===== src/Yaml/Safety.antt =====
-- What is true of the YAML that core/yaml_safe.py loads.
use ferumind.Common.{
  ℕ, suc, ◌+◌, ◌-◌, ◌≤◌, max, ◌≡◌, subst, ◌≢◌, inl, inr, Bool, true, false, ◌&&◌, Option, none,
  some, List, [], ◌∷◌, arith, Option-cases, length,
}
use ferumind.Runtime.{Runtime}
use ferumind.Runtime.Json.{Loaded, contains}
use ferumind.Text.Chars.{utf8_length, text_eq_refl}
use ferumind.Text.{Text}
use ferumind.Runtime.Yaml.{
  Token, opens, closes, refers, plain, Node, scalar_node, sequence_node, mapping_node, Nodes, nil,
  cons, Pairs, end, pair,
}
use ferumind.Yaml.{
  tokens_allowed, string_key, node_allowed, nodes_allowed, pairs_allowed, composed_allowed,
  safe_load_yaml,
}

-- The depth stays within a limit from a depth on, and there is no anchor or alias.
abbrev pub AreShallow : ℕ → ℕ → List Token → Type 0
AreShallow max_depth depth [] = Unit
AreShallow max_depth depth (opens ∷ ts) =
    (suc depth ≤ max_depth) × AreShallow max_depth (suc depth) ts
AreShallow max_depth depth (closes ∷ ts) = AreShallow max_depth (depth - 1) ts
AreShallow max_depth depth (refers ∷ ts) = ⊥
AreShallow max_depth depth (plain ∷ ts) = AreShallow max_depth depth ts

-- The texts of the keys.
abbrev pub pair_keys : Pairs → List (Option Text)
pair_keys end = []
pair_keys (pair k v ps) = string_key k ∷ pair_keys ps

abbrev pub Absent : Text → List (Option Text) → Type 0
Absent key [] = Unit
Absent key (none ∷ ks) = Absent key ks
Absent key (some k ∷ ks) = (k ≢ key) × Absent key ks

-- Every key is a string, and none stands twice.
abbrev pub AreStringKeys : List (Option Text) → Type 0
AreStringKeys [] = Unit
AreStringKeys (none ∷ ks) = ⊥
AreStringKeys (some k ∷ ks) = Absent k ks × AreStringKeys ks

tokens_allowed-AreShallow :
    (max_tokens max_depth count depth : ℕ) (ts : List Token)
    → tokens_allowed max_tokens max_depth count depth ts ≡ true
    → AreShallow max_depth depth ts × (count + length ts ≤ max count max_tokens)
unfolding tokens_allowed
tokens_allowed-AreShallow max_tokens max_depth count depth [] h = (tt, omega arith)
tokens_allowed-AreShallow max_tokens max_depth count depth (opens ∷ ts) h =
    let later =
      tokens_allowed-AreShallow max_tokens max_depth (count + 1) (depth + 1) ts (ground arith) in
    (
      (
        ground arith,
        subst (λ d. AreShallow max_depth d ts) (let e : depth + 1 ≡ suc depth = omega arith in e)
            later.0,
      ),
      ground arith,
    )
tokens_allowed-AreShallow max_tokens max_depth count depth (closes ∷ ts) h =
    let later =
      tokens_allowed-AreShallow max_tokens max_depth (count + 1) (depth - 1) ts (ground arith) in
    (later.0, ground arith)
tokens_allowed-AreShallow max_tokens max_depth count depth (refers ∷ ts) h = absurd (ground arith)
tokens_allowed-AreShallow max_tokens max_depth count depth (plain ∷ ts) h =
    let later =
      tokens_allowed-AreShallow max_tokens max_depth (count + 1) depth ts (ground arith) in
    (later.0, ground arith)

-- Every mapping in a tree has string keys, none of them twice.
mutual
  pub IsSafe : Node → Type 0
  IsSafe (scalar_node tag value) = Unit
  IsSafe (sequence_node ns) = AreSafe ns
  IsSafe (mapping_node ps) = AreStringKeys (pair_keys ps) × AreSafePairs ps

  pub AreSafe : Nodes → Type 0
  AreSafe nil = Unit
  AreSafe (cons n ns) = IsSafe n × AreSafe ns

  pub AreSafePairs : Pairs → Type 0
  AreSafePairs end = Unit
  AreSafePairs (pair k v ps) = IsSafe v × AreSafePairs ps

pair_allowed-head :
    (seen : List Text) (k v : Node) (ps : Pairs)
    → pairs_allowed seen (pair k v ps) ≡ true
    → (key : Text) × (string_key k ≡ some key)
      × (contains seen key ≡ false)
      × (node_allowed v ≡ true)
      × (pairs_allowed (key ∷ seen) ps ≡ true)
unfolding pairs_allowed
pair_allowed-head seen k v ps h = elim (Option-cases (string_key k)) [
  | inl none_there ↦ absurd (ground arith)
  | inr (key, e) ↦ (key, e, ground arith, ground arith, ground arith)
]

-- The keys that are accepted are new.
pairs_allowed-Absent :
    (seen : List Text) (ps : Pairs) (key : Text)
    → pairs_allowed seen ps ≡ true
    → contains seen key ≡ true
    → Absent key (pair_keys ps)
pairs_allowed-Absent seen end key h c = tt
pairs_allowed-Absent seen (pair k v ps) key h c =
    let (j, e, fresh, ok_value, later) = pair_allowed-head seen k v ps h in
    let grown : contains (j ∷ seen) key ≡ true = unfold contains in ground arith in
    rw e (
      λ q.
          absurd (
            let r : contains seen key ≡ false = subst (λ t. contains seen t ≡ false) q fresh in cc),
      pairs_allowed-Absent (j ∷ seen) ps key later grown,
    )

pairs_allowed-AreStringKeys :
    (seen : List Text) (ps : Pairs) → pairs_allowed seen ps ≡ true → AreStringKeys (pair_keys ps)
pairs_allowed-AreStringKeys seen end h = tt
pairs_allowed-AreStringKeys seen (pair k v ps) h =
    let (j, e, fresh, ok_value, later) = pair_allowed-head seen k v ps h in
    let listed : contains (j ∷ seen) j ≡ true = unfold contains in ground (arith, text_eq_refl j) in
    rw e (
      pairs_allowed-Absent (j ∷ seen) ps j later listed,
      pairs_allowed-AreStringKeys (j ∷ seen) ps later,
    )

and_true : (a b : Bool) → (a && b) ≡ true → (a ≡ true) × (b ≡ true)
and_true a b h = ground arith

mutual
  unfolding IsSafe node_allowed

  node_allowed-IsSafe : (n : Node) → node_allowed n ≡ true → IsSafe n
  node_allowed-IsSafe (scalar_node tag value) h = tt
  node_allowed-IsSafe (sequence_node ns) h = nodes_allowed-AreSafe ns h
  node_allowed-IsSafe (mapping_node ps) h =
      (pairs_allowed-AreStringKeys [] ps h, pairs_allowed-AreSafePairs [] ps h)

  nodes_allowed-AreSafe : (ns : Nodes) → nodes_allowed ns ≡ true → AreSafe ns
  nodes_allowed-AreSafe nil h = tt
  nodes_allowed-AreSafe (cons n ns) h = (
    node_allowed-IsSafe n (and_true (node_allowed n) (nodes_allowed ns) h).0,
    nodes_allowed-AreSafe ns (and_true (node_allowed n) (nodes_allowed ns) h).1,
  )

  pairs_allowed-AreSafePairs :
      (seen : List Text) (ps : Pairs) → pairs_allowed seen ps ≡ true → AreSafePairs ps
  pairs_allowed-AreSafePairs seen end h = tt
  pairs_allowed-AreSafePairs seen (pair k v ps) h =
      let (j, e, fresh, ok_value, later) = pair_allowed-head seen k v ps h in
      (node_allowed-IsSafe v ok_value, pairs_allowed-AreSafePairs (j ∷ seen) ps later)

-- What was accepted: the size, the tokens, their depth, and the keys.
pub record IsBounded (rt : Runtime) (text : Text) (max_bytes max_tokens max_depth : ℕ)
    : Type 0 where
  pub small : utf8_length text ≤ max_bytes
  pub tokens : List Token
  pub scanned : rt.scan_yaml text ≡ some tokens
  pub few : length tokens ≤ max_tokens
  pub shallow : AreShallow max_depth 0 tokens
  pub root : Option Node
  pub composed : rt.compose_yaml text ≡ some root
  pub safe : (n : Node) → root ≡ some n → IsSafe n

-- Where YAML is loaded, the text has no more bytes and no more tokens than allowed, no anchor and
-- no alias, collections are nested no deeper than allowed, and every mapping has string keys, none
-- of them twice.
pub safe_load_yaml-IsBounded :
    (rt : Runtime) (text : Text) (max_bytes max_tokens max_depth : ℕ) {loaded : Loaded}
    → safe_load_yaml rt text max_bytes max_tokens max_depth ≡ some loaded
    → IsBounded rt text max_bytes max_tokens max_depth
unfolding safe_load_yaml composed_allowed
safe_load_yaml-IsBounded rt text max_bytes max_tokens max_depth h =
    elim (Option-cases (rt.scan_yaml text)) [
      | inl e ↦ absurd (ground arith)
      | inr (tokens, e) ↦ elim (Option-cases (rt.compose_yaml text)) [
        | inl f ↦ absurd (ground arith)
        | inr (root, f) ↦
            let allowed : tokens_allowed max_tokens max_depth 0 0 tokens ≡ true = ground arith in
            let (shallow, few) =
              tokens_allowed-AreShallow max_tokens max_depth 0 0 tokens allowed in
            record {
              small = ground arith;
              tokens = tokens;
              scanned = e;
              few = omega arith;
              shallow = shallow;
              root = root;
              composed = f;
              safe = λ n q. node_allowed-IsSafe n (ground arith);
            }
      ]
    ]
