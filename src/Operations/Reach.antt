-- ===== src/Operations/Reach.antt =====
-- The operation logs that core/operations.py can reach, with transactions that are rolled back.
use ferumind.Operations.{Platform, Log, rollback}
use ferumind.Operations.Writes.{Write, recorded, proposed, swept, marked, marked_stale}
use ferumind.Operations.Kept.{IsLog, sweep-IsLog, mark-IsLog, mark_stale-IsLog}
use ferumind.Operations.Admitted.{record_operation-IsLog, record_proposal-IsLog}

-- A write, or the end of a transaction that is rolled back.
pub data Step (platform : Platform) (log : Log) : Log → Type 0 where
  write : {later : Log} → Write platform log later → Step platform log later
  rolled_back : Step platform log (rollback log)

-- The logs that steps reach.
pub data Reach (platform : Platform) (log : Log) : Log → Type 0 where
  here : Reach platform log log
  behind :
      {between later : Log}
      → Reach platform log between
      → Step platform between later
      → Reach platform log later

Write-IsLog :
    {platform : Platform} {log later : Log} → Write platform log later → IsLog log → IsLog later
Write-IsLog {platform = p} {log = log} (recorded entry) i = record_operation-IsLog p entry log i
Write-IsLog {platform = p} {log = log} (proposed proposal) i =
    record_proposal-IsLog p proposal log i
Write-IsLog {platform = p} {log = log} (swept project_key commit) i =
    sweep-IsLog p project_key commit log i
Write-IsLog {log = log} (marked id to_state commit h) i = mark-IsLog id to_state commit log h i
Write-IsLog {log = log} (marked_stale p t c) i = mark_stale-IsLog p t c log i

Step-IsLog :
    {platform : Platform} {log later : Log} → Step platform log later → IsLog log → IsLog later
Step-IsLog (write w) i = Write-IsLog w i
Step-IsLog rolled_back (t, s) = (s, s)

-- In every log that operations, each of which marks a row with another state than pending, and
-- rollbacks reach from a log in which it holds, no two rows have the same id, and each project has
-- at most 1000 pending operations, with at most 64 MiB of content; this holds of the rows that the
-- connection reads and of those that it has committed.
pub Reach-IsLog :
    {platform : Platform} {log later : Log} → Reach platform log later → IsLog log → IsLog later
Reach-IsLog here i = i
Reach-IsLog (behind run step) i = Step-IsLog step (Reach-IsLog run i)
