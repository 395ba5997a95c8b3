-- ===== src/Documents/Policies.antt =====
-- core/policy.py: the policy that a proposal echoes.
use ferumind.Common.{Option, none, some, if◌then◌else◌}
use ferumind.Text.{Text}
use ferumind.Text.Chars.{codes, text_eq}
use ferumind.Documents.Parse.{ParsedDocument}

pub record PolicyEcho : Type 0 where
  pub edit_policy : Text
  pub status : Text
  pub policy_note : Option Text

abbrev pub frozen_note : Text
frozen_note = codes "Structure is frozen: additions only, no restructuring."

-- POLICY_NOTES.get(edit_policy)
unfoldable pub policy_note_of : Text → Option Text
policy_note_of edit_policy =
    if text_eq edit_policy (codes "append")
    then some
        (codes "This document is append-only: only additions at the anchor or end are appropriate.")
    else if text_eq edit_policy (codes "propose-first")
    then some
        (codes "This document expects curation: tell the user what will change before applying.")
    else if text_eq edit_policy (codes "ask-human")
    then some (
        codes
          "This file is human-owned: apply only if the user explicitly requested this change in this conversation.")
    else none

unfoldable pub policy_echo_for : ParsedDocument → PolicyEcho
unfolding policy_note_of
policy_echo_for document =
    let note =
      if text_eq document.status (codes "frozen")
      then some frozen_note
      else policy_note_of document.edit_policy in
    record { edit_policy = document.edit_policy; status = document.status; policy_note = note }
