-- ===== src/Proposals/Discard.antt =====
-- A proposal that is discarded stays discarded.
use ferumind.Text.{Text}
