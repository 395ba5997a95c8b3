-- ===== src/Runtime/Yaml.antt =====
-- The tokens and nodes of PyYAML that core/yaml_safe.py looks at.
use ferumind.Text.{Text}

-- A token that opens a block or flow collection, one that closes a collection, an anchor or alias,
-- or any other token.
pub data Token : Type 0 where
  opens closes refers plain : Token

-- A scalar has a tag and a value.
mutual
  pub data Node : Type 0 where
    scalar_node : Text → Text → Node
    sequence_node : Nodes → Node
    mapping_node : Pairs → Node

  pub data Nodes : Type 0 where
    nil : Nodes
    cons : Node → Nodes → Nodes

  pub data Pairs : Type 0 where
    end : Pairs
    pair : Node → Node → Pairs → Pairs
