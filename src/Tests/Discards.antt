-- ===== src/Tests/Discards.antt =====
-- A discarded proposal, and a full replacement of a managed document.
use ferumind.Common.{suc, ◌≡◌, refl, [], ◌∷◌, ◌++◌}
use ferumind.Text.{Text}
use ferumind.Proposals.Lookup.{IsProposalRow}
use ferumind.Proposals.Claim.{HasSameRows, IsCurrent, claim_for_apply_lem}
use ferumind.Operations.Fetch.{with_request}
use ferumind.Text.Chars.{codes}
use ferumind.Runtime.Json.{JsonObject, str}
use ferumind.Frontmatter.{required_frontmatter_keys}
use ferumind.Operations.{Row, OperationRecord, Log, pending}
use ferumind.Proposals
use ferumind.Proposals.{DiscardPatchResult, discard_patch}
use ferumind.Proposals.FullMode
use ferumind.Frontmatter.Texts.{HasText}
use ferumind.Proposals.Managed.{KeepsIdentity, KeepsStamp, validate_full_mode_frontmatter_lem}
use ferumind.Tests.Sample.{running}
use ferumind.Tests.Proposals.{platform, recorded_log, recorded_row, request, logging}
use ferumind.Tests.Places.{plain_disk, placing}

-- Whatever unfolds this unfolds core/patch_writes.py.
unfoldable pub proposing : Unit {0}
unfolding running logging placing Proposals.check_proposal Proposals.get_proposal_for_action
    Proposals.check_applicable Proposals.claim_for_apply Proposals.discard_patch
    FullMode.match_field FullMode.search_field FullMode.frontmatter_field_line
    FullMode.check_required FullMode.differs FullMode.check_identity FullMode.check_stamp
    FullMode.description_of FullMode.validate_full_mode_frontmatter
proposing = tt

abbrev operation_id : Text
operation_id = codes "op_" ++ (0 ∷ [])

abbrev discarded_log : Log
discarded_log =
    (discard_patch platform plain_disk (codes "w" ∷ []) (codes "p") operation_id recorded_log).0

abbrev claimed : OperationRecord
claimed = with_request recorded_row request

-- The log behind the reading of the clock.
abbrev claimed_log : Log
claimed_log = record recorded_log { readings = suc recorded_log.readings }

claim_for_apply_example :
    HasSameRows recorded_log claimed_log
    × IsCurrent platform claimed.expires_at (platform.clock recorded_log.readings)
    × (claimed.state ≡ pending)
    × ((row : Row) × (request : JsonObject) × IsProposalRow platform
          (codes "p")
          operation_id
          recorded_log
          claimed
          row
          request)
unfolding proposing
claim_for_apply_example =
    claim_for_apply_lem platform (codes "p") operation_id recorded_log claimed_log claimed refl

abbrev fields : JsonObject
fields =
    (codes "id", str (codes "d"))
    ∷ (codes "type", str (codes "document"))
    ∷ (codes "project", str (codes "p"))
    ∷ (codes "description", str (codes "text"))
    ∷ (codes "created", str (codes "then"))
    ∷ (codes "updated", str (codes "now"))
    ∷ []

abbrev stamped : Text
stamped =
    codes "---"
    ++ 10 ∷ (codes "created: then" ++ 10 ∷ (codes "updated: now" ++ 10 ∷ (codes "---" ++ 10 ∷ [])))

validate_full_mode_frontmatter_example :
    KeepsIdentity fields fields required_frontmatter_keys
    × KeepsStamp fields fields stamped stamped (codes "created")
    × KeepsStamp fields fields stamped stamped (codes "updated")
    × HasText fields (codes "project") (codes "p")
unfolding proposing
validate_full_mode_frontmatter_example =
    validate_full_mode_frontmatter_lem fields fields (codes "p") stamped stamped refl
