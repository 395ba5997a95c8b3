-- ===== src/Tests/Mapping.antt =====
-- Runs of core/document_map.py on small documents.
use ferumind.Common.{◌≡◌, refl, false, List, [], ◌∷◌, arith}
use ferumind.Text.{Text}
use ferumind.Text.Chars.{codes}
use ferumind.Runtime.Json.{contains}
use ferumind.DocumentMap.Headings.{Heading}
use ferumind.DocumentMap.Ids.{IdState, unique_id}
use ferumind.DocumentMap.Ids.Fresh.{unique_id_fresh}
use ferumind.DocumentMap.Sections.{derive_sections, end_lines}
use ferumind.DocumentMap.Sections.Ends.{section_ends, end_lines-section_ends}
use ferumind.DocumentMap.Sections.Order.{spans, AreNested, derive_sections-AreNested}
use ferumind.DocumentMap.Sections.Unique.{section_ids, Distinct, derive_sections-Distinct}
use ferumind.DocumentMap.Blocks.{derive_blocks}
use ferumind.DocumentMap.Blocks.Cover.{ArePartition, derive_blocks-ArePartition}
use ferumind.Tests.Sample.{sample, running}

-- A preamble, a heading, a nested heading with a list, and a heading of the first one's name.
abbrev pub outline : List Text
outline =
    codes "intro" ∷ codes "# A" ∷ codes "## B" ∷ codes "- one" ∷ codes "# A" ∷ codes "end" ∷ []

derive_sections-AreNested_example : AreNested 1 6 (spans (derive_sections sample outline 1 6))
derive_sections-AreNested_example = derive_sections-AreNested sample outline 1 (omega arith)

spans-outline : spans (derive_sections sample outline 1 6) ≡ (1, 1) ∷ (2, 4) ∷ (3, 4) ∷ (5, 6) ∷ []
unfolding running
spans-outline = refl

derive_sections-Distinct_example : Distinct (section_ids (derive_sections sample outline 1 6))
derive_sections-Distinct_example = derive_sections-Distinct sample outline 1 6

outline_ids :
    section_ids (derive_sections sample outline 1 6)
    ≡ codes "preamble" ∷ codes "a" ∷ codes "b" ∷ codes "a-2" ∷ []
unfolding running
outline_ids = refl

abbrev three_headings : List Heading
three_headings =
    record { line_number = 2; level = 1; text = codes "A" }
    ∷ record { line_number = 3; level = 2; text = codes "B" }
    ∷ record { line_number = 5; level = 1; text = codes "A" }
    ∷ []

end_lines-section_ends_example : (end_lines 6 three_headings).0 ≡ section_ends 6 three_headings
end_lines-section_ends_example = end_lines-section_ends 6 1 7 three_headings (ground arith)

-- Two ids of one base.
abbrev two_ids : IdState
two_ids = record { used = codes "a-2" ∷ codes "a" ∷ []; next_suffixes = [] }

unique_id_fresh_example :
    (contains two_ids.used (unique_id (codes "a") two_ids).0 ≡ false)
    × ((unique_id (codes "a") two_ids).1.used ≡ (unique_id (codes "a") two_ids).0 ∷ two_ids.used)
unique_id_fresh_example = unique_id_fresh (codes "a") two_ids

third_id : (unique_id (codes "a") two_ids).0 ≡ codes "a-3"
unfolding running
third_id = refl

derive_blocks-ArePartition_example :
    ArePartition 1 7 (derive_blocks sample outline 1 6 (derive_sections sample outline 1 6))
derive_blocks-ArePartition_example =
    derive_blocks-ArePartition sample outline 1 (derive_sections sample outline 1 6) (omega arith)
      (omega arith)
