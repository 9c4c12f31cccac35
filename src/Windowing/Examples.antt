-- ===== src/Windowing/Examples.antt =====
-- The backfill of a small session.
use privibe.Prelude.{◌≡◌, some, [], ◌∷◌, arith}
use privibe.Message.{LlmMessage, Role, new_message}
use privibe.Windowing.{SessionWindowing, remaining}
use privibe.Windowing.Batches.{load_more, load_more_all}

abbrev said : LlmMessage
said = new_message Role.user (some "hi")

abbrev window : SessionWindowing
window = record {
  load_more_batch_size = 2;
  backfill_messages = said ∷ said ∷ said ∷ [];
  backfill_cursor = 3;
}

load_more_all_example :
    ((load_more 2 window (said ∷ [])).0 ≡ said ∷ said ∷ said ∷ said ∷ [])
    × (remaining (load_more 2 window (said ∷ [])).1 ≡ 0)
load_more_all_example = load_more_all 2 window (said ∷ []) (omega arith)
