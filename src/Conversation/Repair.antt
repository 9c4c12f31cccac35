-- ===== src/Conversation/Repair.antt =====
-- What `restore` does to the stored messages: the module functions `is_step_budget_warning`,
-- `_drop_dangling_step_budget_warning`, `_fix_dangling_tool_calls` and `_apply_context_refresh` of
-- privibe/core/conversation.py.
pub mod Answered
use Prim.Native.String.{◌++◌ as str_append}
use Prim.Native.String
use text.Mathlib.Text.{starts_with}
use privibe.Prelude.{
  String, ◌&&◌, ◌||◌, not, Bool, true, false, Option, none, some, List, [], ◌∷◌, ◌++◌, map,
  if◌then◌else◌, or_empty, truthy, ◌==◌, get_last?, drop_last,
}
use privibe.Message.{
  LlmMessage, ToolCall, Role, new_message, is_user, is_tool, is_assistant, calls_of, opening,
  tagged, vibe_warning_tag, context_refresh_tag, cancellation_tag,
}

-- `needle in text`.
unfoldable pub contains : String → String → Bool
contains String.[] needle = starts_with "" needle
contains (String.◌∷◌ ch text) needle =
    starts_with (String.◌∷◌ ch text) needle || contains text needle

abbrev pub step_budget_marker : String
step_budget_marker = "Step budget spent"

unfoldable pub is_step_budget_warning : LlmMessage → Bool
is_step_budget_warning msg =
    is_user msg.role
    && (msg.injected
        && starts_with (or_empty msg.content)
            (str_append (opening vibe_warning_tag) step_budget_marker))

unfoldable pub drop_dangling_step_budget_warning : List LlmMessage → List LlmMessage
drop_dangling_step_budget_warning messages = elim (get_last? messages) [
  | none ↦ messages
  | some last ↦ if is_step_budget_warning last then drop_last messages else messages
]

-- The ids of the tool results, those that are not empty.
unfoldable pub responded_ids : List LlmMessage → List String
responded_ids [] = []
responded_ids (m ∷ ms) =
    let rest = responded_ids ms in
    if is_tool m.role && truthy m.tool_call_id then or_empty m.tool_call_id ∷ rest else rest

unfoldable pub contains_id : String → List String → Bool
contains_id i [] = false
contains_id i (j ∷ js) = i == j || contains_id i js

-- `str(get_user_cancellation_message(CancellationReason.TOOL_NO_RESPONSE))`.
abbrev no_response_text : String
no_response_text = tagged cancellation_tag "Tool execution interrupted - no response available"

unfoldable pub no_response : ToolCall → LlmMessage
no_response tc = record (new_message Role.tool (some no_response_text)) {
  tool_call_id = some (or_empty tc.id);
  name = some (or_empty tc.function.name);
}

-- The loop over `last.tool_calls`.
unfoldable pub no_responses : List String → List ToolCall → List LlmMessage
unfolding no_response
no_responses ids [] = []
no_responses ids (tc ∷ tcs) =
    let rest = no_responses ids tcs in
    if contains_id (or_empty tc.id) ids then rest else no_response tc ∷ rest

unfoldable pub fix_dangling_tool_calls : List LlmMessage → List LlmMessage
fix_dangling_tool_calls messages = elim (get_last? messages) [
  | none ↦ messages
  | some last ↦
      if is_assistant last.role
      then messages ++ no_responses (responded_ids messages) (calls_of last)
      else messages
]

-- The refresh message; `content` is what `build_context_refresh_content` puts between the tags, and
-- `message_id` the fresh id that every message other than a tool result is given.
unfoldable pub context_refresh : String → String → LlmMessage
context_refresh content message_id =
    record (new_message Role.user (some (tagged context_refresh_tag content))) {
      injected = true;
      message_id = some message_id;
    }

unfoldable pub is_stale_refresh : LlmMessage → Bool
is_stale_refresh msg = contains (or_empty msg.content) (opening context_refresh_tag)

unfoldable pub drop_stale_refresh : List LlmMessage → List LlmMessage
drop_stale_refresh messages = elim (get_last? messages) [
  | none ↦ messages
  | some last ↦ if is_stale_refresh last then drop_last messages else messages
]

unfoldable pub apply_context_refresh : String → String → List LlmMessage → List LlmMessage
apply_context_refresh content message_id messages =
    drop_stale_refresh messages ++ context_refresh content message_id ∷ []
