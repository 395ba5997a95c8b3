-- ===== src/DocumentMap/Reads.antt =====
-- core/document_map.py: `read_document_range`.
use ferumind.Common.{
  ℕ, zero, suc, ◌+◌, ◌-◌, min, Bool, Option, none, some, List, [], ◌∷◌, ◌++◌, ltb, if◌then◌else◌, ℤ,
  pos, int_lt, to_nat, Kind, Result, ok, ◌>>◌, raise_if, length,
}
use ferumind.Text.{Text}
use ferumind.Text.Lines.{split_lines, join_lines}
use ferumind.Runtime.{Runtime}
use ferumind.DocumentMap.{LineRange, slice}
use ferumind.DocumentMap.Ids.{decimal}

pub record DocumentRangeRead : Type 0 where
  pub project_key : Text
  pub path : Text
  pub document_sha256 : Text
  pub range : LineRange
  pub range_sha256 : Text
  pub content : Text
  pub numbered_content : Option Text

-- f"{n:>6}|{text}" for the lines from number `n` on
unfoldable pub number_lines : ℕ → List Text → List Text
number_lines n [] = []
number_lines n (text ∷ rest) =
    (pad (6 - length (decimal n)) (decimal n) ++ b'|' ∷ text) ∷ number_lines (suc n) rest
  where
    pad : ℕ → Text → Text
    pad zero t = t
    pad (suc k) t = 32 ∷ pad k t

unfoldable pub read_document_range :
    Runtime → Text → Text → Text → ℤ → ℤ → Bool → ℕ → Result DocumentRangeRead
read_document_range rt content project_key path start_line end_line include_line_numbers max_lines =
    do
      raise_if (int_lt start_line (pos 1)) Kind.range_not_found
      raise_if (int_lt end_line start_line) Kind.range_not_found
      let lines = split_lines content
      let total_lines = length lines
      let start = to_nat start_line
      raise_if (ltb total_lines start) Kind.range_not_found
      let stop = min (to_nat end_line) total_lines
      raise_if (ltb max_lines (stop + 1 - start)) Kind.range_too_large
      let selected = slice lines start stop
      let range_content = join_lines selected
      ok (record {
        project_key = project_key;
        path = path;
        document_sha256 = rt.sha256 content;
        range = record { start_line = start; end_line = stop };
        range_sha256 = rt.sha256 range_content;
        content = range_content;
        numbered_content =
            if include_line_numbers then some (join_lines (number_lines start selected)) else none;
      })
