-- ===== src/Wire.antt =====
-- What a request is built from: privibe/core/llm/message_utils.py, and how `prepare_request` of
-- privibe/core/llm/backend/generic.py composes it.
pub mod Kept
pub mod Turns
mod Examples
use Prim.Native.String.{◌++◌ as str_append}
use privibe.Prelude.{
  ℕ, String, Bool, true, false, Option, none, some, List, [], ◌∷◌, ◌++◌, not, ◌&&◌, ◌||◌, length,
  if◌then◌else◌, truthy, or_empty, get_last?, drop_last,
}
use privibe.Message.{LlmMessage, Role, new_message, is_user, is_assistant}
use privibe.Str.{strip}

-- `a or b`.
abbrev pub or_text : Option String → Option String → Option String
or_text a b = if truthy a then a else b

unfoldable pub strip_reasoning : LlmMessage → LlmMessage
strip_reasoning msg =
    if not (is_assistant msg.role) || not (truthy msg.reasoning_content)
    then msg
    else record msg { reasoning_content = none; reasoning_signature = none }

-- The empty user message that keeps the turns alternating, with its fresh id.
unfoldable pub placeholder : String → LlmMessage
placeholder fresh_id = record (new_message Role.user (some "")) { message_id = some fresh_id }

-- One user message in place of two; the fresh id is used if the first has none.
unfoldable pub merged : String → LlmMessage → LlmMessage → LlmMessage
unfolding strip
merged fresh_id prev msg =
    record (new_message Role.user (
      some
        (strip (str_append (or_empty prev.content) (str_append "\n\n" (or_empty msg.content)))))) {
          message_id = elim prev.message_id [ none ↦ some fresh_id | some id ↦ some id ];
          reasoning_effort = or_text prev.reasoning_effort msg.reasoning_effort;
        }

-- `fresh n` is the id that a message is given which is made when the result has n messages.
module _ (fresh : ℕ → String) where
  unfoldable pub insert_step : List LlmMessage → LlmMessage → List LlmMessage
  unfolding placeholder
  insert_step result msg = elim (get_last? result) [
    | none ↦ result ++ msg ∷ []
    | some last ↦
        if is_assistant last.role && is_assistant msg.role
        then (result ++ placeholder (fresh (length result)) ∷ []) ++ msg ∷ []
        else result ++ msg ∷ []
  ]

  unfoldable pub insert_loop : List LlmMessage → List LlmMessage → List LlmMessage
  unfolding insert_step
  insert_loop result [] = result
  insert_loop result (msg ∷ messages) = insert_loop (insert_step result msg) messages

  unfoldable pub insert_between_consecutive_assistant_messages : List LlmMessage → List LlmMessage
  unfolding insert_loop
  insert_between_consecutive_assistant_messages messages = insert_loop [] messages

  unfoldable pub merge_step : List LlmMessage → LlmMessage → List LlmMessage
  unfolding merged
  merge_step result msg = elim (get_last? result) [
    | none ↦ result ++ msg ∷ []
    | some last ↦
        if is_user last.role && is_user msg.role
        then drop_last result ++ merged (fresh (length result)) last msg ∷ []
        else result ++ msg ∷ []
  ]

  unfoldable pub merge_loop : List LlmMessage → List LlmMessage → List LlmMessage
  unfolding merge_step
  merge_loop result [] = result
  merge_loop result (msg ∷ messages) = merge_loop (merge_step result msg) messages

  unfoldable pub merge_consecutive_user_messages : List LlmMessage → List LlmMessage
  unfolding merge_loop
  merge_consecutive_user_messages messages = merge_loop [] messages

-- `merged_messages` of `prepare_request`.
unfoldable pub merged_messages : (ℕ → String) → (ℕ → String) → List LlmMessage → List LlmMessage
unfolding insert_between_consecutive_assistant_messages merge_consecutive_user_messages
merged_messages fresh_in_merge fresh_in_insert messages =
    insert_between_consecutive_assistant_messages fresh_in_insert
      (merge_consecutive_user_messages fresh_in_merge messages)
