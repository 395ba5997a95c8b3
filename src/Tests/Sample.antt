-- ===== src/Tests/Sample.antt =====
-- A concrete runtime, and all definitions that a run computes with.
use ferumind.Common.{
  ℕ, ◌+◌, true, false, ◌&&◌, none, some, List, [], ◌∷◌, ◌++◌, map, leb, if◌then◌else◌, take, drop,
}
use ferumind.Text.{Text}
use ferumind.Text.Chars
use ferumind.Text.Chars.{codes, lstrip}
use ferumind.Text.Find
use ferumind.Text.Find.{find}
use ferumind.Text.Lines
use ferumind.Text.Lines.{newline, split_lines}
use ferumind.Runtime.{Runtime}
use ferumind.Runtime.Json
use ferumind.Runtime.Json.{Value, str, Loaded, mapping, not_mapping, JsonObject}
use ferumind.Runtime.Yaml.{Token, opens, closes, plain, scalar_node, mapping_node, Pairs, end, pair}
use ferumind.Yaml
use ferumind.Yaml.{yaml_string_tag}
use ferumind.Frontmatter
use ferumind.Frontmatter.Match
use ferumind.DocumentMap
use ferumind.DocumentMap.Headings
use ferumind.DocumentMap.Ids
use ferumind.DocumentMap.Sections
use ferumind.DocumentMap.Blocks
use ferumind.DocumentMap.Reads
use ferumind.EditTargets
use ferumind.EditTargets.Fences
use ferumind.EditTargets.Matches
use ferumind.EditTargets.Exact
use ferumind.Patches

-- ASCII case.
abbrev lower_char : ℕ → ℕ
lower_char c = if leb b'A' c && leb c b'Z' then c + 32 else c

-- `key: value` on each line.
abbrev yaml_lines : List Text → List (Text × Value)
yaml_lines [] = []
yaml_lines (l ∷ ls) =
    let rest = yaml_lines ls in
    elim (find l (codes ": ")) [ none ↦ rest | some k ↦ (take k l, str (drop (k + 2) l)) ∷ rest ]

abbrev yaml_tokens : JsonObject → List Token
yaml_tokens [] = closes ∷ []
yaml_tokens ((k, v) ∷ d) = plain ∷ plain ∷ yaml_tokens d

abbrev yaml_pairs : JsonObject → Pairs
yaml_pairs [] = end
yaml_pairs ((k, v) ∷ d) =
    pair (scalar_node yaml_string_tag k) (scalar_node yaml_string_tag k) (yaml_pairs d)

abbrev yaml_text : JsonObject → Text
yaml_text [] = []
yaml_text ((k, str t) ∷ d) = k ++ (codes ": " ++ (t ++ newline ∷ yaml_text d))
yaml_text ((k, v) ∷ d) = yaml_text d

-- Hashes are the texts themselves; a line of YAML is a key and a text.
abbrev pub sample : Runtime
sample = record {
  sha256 = λ t. t;
  lower = map lower_char;
  title = λ t. t;
  is_decimal = λ c. leb b'0' c && leb c b'9';
  now = codes "now";
  scan_yaml = λ t. some (opens ∷ yaml_tokens (yaml_lines (split_lines t)));
  compose_yaml = λ t. some (some (mapping_node (yaml_pairs (yaml_lines (split_lines t)))));
  load_yaml = λ t. some (mapping (yaml_lines (split_lines t)));
  dump_yaml = yaml_text;
  compiles = λ q i. true;
  finditer = λ q i l. ([], false);
}

-- Whatever unfolds this unfolds the models.
unfoldable pub running : Unit {0}
unfolding Chars.is_space Chars.take_while Chars.drop_while Chars.lstrip Chars.rstrip_of Chars.strip
    Chars.text_eq Chars.starts_with Chars.utf8_length Find.find Find.find_from Lines.split_lines
    Lines.join_lines Lines.count_newlines Json.lookup Json.insert Json.erase Json.update
    Json.contains Json.has_key Yaml.tokens_allowed Yaml.string_key Yaml.node_allowed
    Yaml.composed_allowed Yaml.safe_load_yaml Frontmatter.to_json_value Frontmatter.validate_status
    Frontmatter.validate_edit_policy Frontmatter.validate_description_text
    Frontmatter.validate_description Frontmatter.extract_frontmatter_block Frontmatter.has_text
    Frontmatter.match_updated Frontmatter.sub_updated Frontmatter.insert_at_close
    Frontmatter.set_frontmatter_updated Frontmatter.load_mapping Frontmatter.parse_frontmatter
    Frontmatter.is_managed_markdown Frontmatter.refresh_block Frontmatter.refresh_updated_if_managed
    Match.close_group Match.open_group Match.match_block Match.opens_frontmatter
    Match.match_frontmatter DocumentMap.hash_line_range DocumentMap.ends_in_newline
    DocumentMap.block_end_line DocumentMap.frontmatter_line_range Headings.fence_of
    Headings.is_fence Headings.count_hashes Headings.heading_text Headings.heading_of
    Headings.is_heading Headings.headings_from Headings.find_headings Ids.decimal_onto Ids.decimal
    Ids.is_slug_char Ids.sub_runs Ids.slugify Ids.suffix_of Ids.candidate Ids.free_suffix
    Ids.unique_id Sections.section_digest Sections.any_text Sections.range_has_text Sections.least
    Sections.end_lines Sections.pop_to Sections.heading_sections Sections.first_heading_line
    Sections.preamble_section Sections.has_preamble Sections.sections_of Sections.derive_sections
    Blocks.derive_blocks Reads.number_lines Reads.read_document_range EditTargets.find_section
    EditTargets.resolve_section EditTargets.assert_range_not_in_frontmatter
    EditTargets.resolve_range Fences.fence_step Fences.fence_lines_from Fences.code_fence_line_set
    Fences.has_line Matches.fold_case Matches.literal_spans Matches.line_spans Matches.matches_from
    Matches.check_query Matches.iter_matches Matches.partition_matches_by_frontmatter
    Matches.find_in_document Matches.resolve_match_anchor_line Exact.starts_behind Exact.line_starts
    Exact.search_line Exact.line_number_at_offset Exact.exact_match Exact.exact_matches_from
    Exact.find_exact_matches
running = tt

unfoldable pub patching : Unit {0}
unfolding running Patches.finalize Patches.Lines.replace_lines Patches.Lines.prepare_section_patch
    Patches.Lines.prepare_range_patch Patches.Insert.validate_anchor_hash
    Patches.Insert.line_anchor_index Patches.Insert.section_anchor_index
    Patches.Insert.match_anchor_index Patches.Insert.resolve_insert_index
    Patches.Insert.insert_lines Patches.Insert.prepare_insert_patch Patches.Search.has_newline
    Patches.Search.select_matches Patches.Search.insert_match Patches.Search.sort_matches
    Patches.Search.replace_matches Patches.Search.prepare_search_replace_patch
    Patches.Exact.body_matches Patches.Exact.select_exact_match Patches.Exact.select_exact
    Patches.Exact.insert_exact Patches.Exact.sort_exact Patches.Exact.replace_exact
    Patches.Exact.prepare_exact_replace_patch Patches.Exact.apply_edit Patches.Exact.apply_edits
    Patches.Exact.prepare_multi_edit_patch Patches.Metadata.any_in
    Patches.Metadata.validate_frontmatter_patch_keys
    Patches.Metadata.validate_frontmatter_behavior_values
    Patches.Metadata.validate_frontmatter_description_change Patches.Metadata.any_missing
    Patches.Metadata.delete_keys Patches.Metadata.remove_frontmatter_keys
    Patches.Metadata.render_document Patches.Metadata.sort_keys
    Patches.Metadata.prepare_frontmatter_patch
patching = tt
