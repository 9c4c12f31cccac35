-- ===== src/Windowing.antt =====
-- `SessionWindowing` of privibe/cli/textual_ui/windowing/state.py: the older messages of a resumed
-- session, shown batch by batch.
mod Examples
pub mod Batches
use privibe.Prelude.{
  ℕ, zero, suc, ◌-◌, min, Bool, true, false, ◌&&◌, Option, none, some, List, [], ◌∷◌, length, take,
  drop, ltb, eqb, if◌then◌else◌,
}
use privibe.Message.{LlmMessage}

pub record LoadMoreBatch : Type 0 where
  pub start_index : ℕ
  pub messages : List LlmMessage

pub record SessionWindowing : Type 0 where
  pub load_more_batch_size : ℕ
  pub backfill_messages : List LlmMessage
  pub backfill_cursor : ℕ

pub new : ℕ → SessionWindowing
new size = record { load_more_batch_size = size; backfill_messages = []; backfill_cursor = 0 }

pub remaining : SessionWindowing → ℕ
remaining w = w.backfill_cursor

pub has_backfill : SessionWindowing → Bool
has_backfill w = ltb 0 w.backfill_cursor

pub reset : SessionWindowing → SessionWindowing
reset w = record w { backfill_messages = []; backfill_cursor = 0 }

pub set_backfill : List LlmMessage → SessionWindowing → SessionWindowing
set_backfill messages w = record w {
  backfill_messages = messages;
  backfill_cursor = length messages;
}

-- `messages[start:end]`
pub slice : ℕ → ℕ → List LlmMessage → List LlmMessage
slice start end messages = drop start (take end messages)

pub batch_at : ℕ → List LlmMessage → Option LoadMoreBatch
batch_at start [] = none
batch_at start (m ∷ ms) = some (record { start_index = start; messages = m ∷ ms })

pub next_load_more_batch : SessionWindowing → Option LoadMoreBatch × SessionWindowing
unfolding slice batch_at
next_load_more_batch w =
    if eqb w.backfill_cursor 0
    then (none, w)
    else (let start : ℕ = w.backfill_cursor - w.load_more_batch_size in
        (
          batch_at start (slice start w.backfill_cursor w.backfill_messages),
          record w { backfill_cursor = start },
        ))

all_injected : List LlmMessage → Bool
all_injected [] = true
all_injected (m ∷ ms) = m.injected && all_injected ms

-- `prefix and all(m.injected for m in prefix)`
pub only_injected : List LlmMessage → Bool
unfolding all_injected
only_injected [] = false
only_injected (m ∷ ms) = all_injected (m ∷ ms)

-- `min(visible_indices)`, for the first index and the others.
pub least : ℕ → List ℕ → ℕ
least i [] = i
least i (j ∷ js) = least (min i j) js

-- Where the backfill ends, for the history and the indices of the messages on screen.
pub backfill_end : List LlmMessage → List ℕ → ℕ → ℕ
unfolding slice only_injected least
backfill_end history [] cursor = length history
backfill_end history (i ∷ is) cursor =
    let oldest : ℕ = least i is in
    if ltb cursor oldest
    then (if only_injected (slice cursor oldest history) then cursor else oldest)
    else cursor

pub recompute_backfill : List LlmMessage → List ℕ → SessionWindowing → Bool × SessionWindowing
unfolding backfill_end
recompute_backfill [] visible w = (false, record w { backfill_messages = []; backfill_cursor = 0 })
recompute_backfill (m ∷ ms) visible w =
    let end : ℕ = min (backfill_end (m ∷ ms) visible w.backfill_cursor) (length (m ∷ ms)) in
    let messages : List LlmMessage = take end (m ∷ ms) in
    (
      ltb 0 (length messages),
      record w { backfill_messages = messages; backfill_cursor = length messages },
    )
