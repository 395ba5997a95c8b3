-- ===== src/Runtime.antt =====
-- What the modelled code calls and this repository does not implement: hashing, Unicode tables, the
-- clock, PyYAML and the `regex` package. Each is a field, and the models take a `Runtime`.
pub mod Json
pub mod Yaml
use ferumind.Common.{ℕ, Bool, Option, List}
use ferumind.Text.{Text}
use ferumind.Runtime.Yaml.{Token, Node}
use ferumind.Runtime.Json.{Value, Loaded}

pub record Runtime : Type 0 where
  -- core/documents.py compute_sha256: hashlib.sha256(content.encode("utf-8")).hexdigest()
  pub sha256 : Text → Text
  -- str.lower()
  pub lower : Text → Text
  -- str.title()
  pub title : Text → Text
  -- the `\d` of `re`
  pub is_decimal : ℕ → Bool
  -- datetime.now(UTC).isoformat()
  pub now : Text
  -- the tokens of yaml.scan(text), yaml.compose(text, SafeLoader), and yaml.safe_load(text): `none`
  -- for a `yaml.YAMLError` or a `RecursionError`; a `ValueError` of the last is a value of `Loaded`
  pub scan_yaml : Text → Option (List Token)
  pub compose_yaml : Text → Option (Option Node)
  pub load_yaml : Text → Option Loaded
  -- yaml.safe_dump(mapping, sort_keys=False, default_flow_style=False, allow_unicode=True)
  pub dump_yaml : List (Text × Value) → Text
  -- regex.compile(query, flags) succeeds; the flag is `regex.IGNORECASE`
  pub compiles : Text → Bool → Bool
  -- the spans that compiled.finditer(line, timeout=remaining) yields, and whether the deadline
  -- passes behind them
  pub finditer : Text → Bool → Text → List (ℕ × ℕ) × Bool
