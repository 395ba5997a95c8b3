-- ===== src/Lib.antt =====
-- Models of the document editing core of Ferumind, in src/ferumind/core/.
--
-- Ferumind keeps Markdown documents, and an assistant changes them through proposals. A proposal
-- starts as a prepared patch: the text of a document goes in, and the whole new text comes out, with
-- a description of the target and a hash that guards it. The proposal is recorded in the operation
-- log, where it waits until it is applied, discarded, stale or expired. This development models that
-- path up to the log: a document is a text, and a function of the source is a function of the model;
-- a function that uses the database is a function on the state of a connection.
--
-- The parts, and the files that model them (core/ is src/ferumind/core/):
--
--   Runtime, Runtime/*   what the code calls and the repository does not hold: SHA-256, Unicode
--     tables, the clock, PyYAML and the `regex` package. They are the fields of the record
--     `Runtime`, which the models take as an argument; the theorems ask nothing of them.
--     Runtime/Json has the values of core/types.py and the operations of a dict.
--   Text, Text/*   Python strings as lists of code points: white space, comparison, `find`, lines.
--   Yaml   core/yaml_safe.py: `safe_load_yaml`, `_validate_node`.
--   Frontmatter, Frontmatter/*   core/frontmatter.py: the two regular expressions of the block with
--     their backtracking (Match), `parse_frontmatter`, `is_managed_markdown`, the checks of values,
--     the `updated` stamp (Frontmatter) and `generate_frontmatter` (Generate).
--   Documents, Documents/*   core/documents.py: `_validate_identity`, `_document_description`,
--     `inspect_document_content`, `parse_document_content` (Parse); core/policy.py (Policies).
--   Paths, Paths/*   core/paths.py: `PurePosixPath` as far as the code uses it, `contained_path`,
--     `contained_project_root`. The file system is a record of two functions, `Filesystem`.
--   Folders, Folders/*   core/folders.py: the folder of a path and the mirror below `archive/`.
--   Operations, Operations/*   core/operations.py: the operation log. A `Log` is a connection: the
--     rows that it reads, the rows of its last commit, and how often the clock and the random ids
--     were read. An `Action` is a function on it that ends in a value or an error, and what was
--     written before an error stays written. `Platform` has the JSON codec, the clock, the ids and
--     the dates. Rows has the SQL statements, Sweep the expiry and the marks, Record
--     `record_operation` and `record_proposal`, Fetch `get_operation`. A `Write` is one call of a
--     function that writes, a `Step` is a write or a rollback, and `Reach` is a run of steps.
--   Proposals, Proposals/*   core/patch_writes.py: the hash checks, the lookup and the state checks of
--     a proposal, `discard_patch`, `_resolve_patch_content` with `_validate_full_mode_frontmatter`
--     (FullMode), and `_verify_target_hash_for_apply` (Verify).
--   ResponseLimits   core/response_limits.py: `ResponseBudget` and the blob check.
--   FileUri, FileUri/*   core/file_uri.py, with UTF-8 and URL-safe base64 written out (Codec).
--   WriteChecks   core/write_common.py: `validate_path_safe`, `validate_markdown_size`,
--     `canonical_folder_path`, `validate_title`; the limits are those of core/write_limits.py.
--   DocumentMap, DocumentMap/*   core/document_map.py: line ranges and their hashes, headings, ids,
--     `derive_sections`, `derive_blocks`, `read_document_range` (Reads), `infer_title` (Titles) and
--     `build_document_map` (Build). `section_target` is in EditTargets/Descriptors.
--   EditTargets, EditTargets/*   core/edit_targets.py: `resolve_section`, `resolve_range`, code
--     fences, `iter_matches`, `find_in_document`, match anchors, `find_exact_matches`.
--   Patches, Patches/*   core/patches.py: the guard `_finalize` and the seven `prepare` functions
--     (section and range in Lines, Insert, Search, exact and multi-edit in Exact, frontmatter in
--     Metadata).
--   Common, Common/*   numbers, tests, lists and results. Common/Errors has one kind for each
--     exception class of core/errors.py that this code raises. An error is a value: `raise` is `err`,
--     and a `do` block stops at the first one. An error carries the `edit_index` of its details;
--     messages and other details are not modelled.
--   Tests, Tests/*   runs on small documents, with a concrete runtime in Tests/Sample.
--
-- The parts use each other in that order: a patch resolves its target by EditTargets, which derives
-- the sections of the body by DocumentMap, which finds the body by Frontmatter.
--
-- Numbers. Python integers from outside are ℤ, and line numbers, offsets and columns that the code
-- derives are ℕ. A subtraction on ℕ stands only where the source's own guard makes it one on
-- natural numbers. The limits (`max_matches`, `max_multi_edits`, ...) are those of the source.
--
-- Loops. A loop over a list is recursion on the list. These run on fuel. `exact_matches_from`
-- takes one more than the length of the text, and each round moves on by the length of the needle;
-- `search_line` takes the number of line starts, and each round shrinks the interval; `free_suffix`
-- takes one more than the number of ids in use, and each round meets another one of them. The
-- block loop takes one more than the number of lines. `literal_spans` takes two more than the length
-- of the line and fails with `out_of_fuel` if that is not enough.
--
-- Dates. A `datetime` with an offset is the number of microseconds of its instant, and a date is
-- read from its text by a parameter.
--
-- Not modelled: the random ids of documents and episodes, and the hints of errors; the listings of
-- operations and the search for an equivalent proposal, which sort rows by time; the propose
-- calls, and the half of `apply_patch` that writes, with reconciliation and snapshots; compacts, images, uploads
-- and search, which stand on SQLite and the file system; the MCP server, the command line and the
-- dashboard, which call this core. A regular expression's timeout is a flag behind the
-- spans of `finditer`; the clock that sets it is not modelled.
pub mod Common
pub mod Text
pub mod Runtime
pub mod Yaml
pub mod Frontmatter
pub mod Documents
pub mod DocumentMap
pub mod EditTargets
pub mod Patches
pub mod Paths
pub mod Folders
pub mod Operations
pub mod ResponseLimits
pub mod FileUri
pub mod WriteChecks
pub mod Proposals
mod Tests
