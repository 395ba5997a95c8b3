-- ===== src/Text.antt =====
-- Python's `str` as a list of code points.
pub mod Chars
pub mod Lines
pub mod Find
pub mod Split
pub mod Spans
use ferumind.Common.{ℕ, List}

abbrev pub Text : Type 0
Text = List ℕ
