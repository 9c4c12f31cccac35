-- ===== src/Conversation/Examples.antt =====
-- `ConversationList` on concrete sessions.
use privibe.Prelude.{◌≡◌, refl, String, true, false, none, some, List, [], ◌∷◌, ◌++◌, drop_last}
use privibe.Prelude.Int.{pos}
use privibe.Prelude.Exec.{ok}
use privibe.Message.{LlmMessage, ToolCall, Role, new_message}
use privibe.Conversation
use privibe.Conversation.{ConversationList, system_message_is_immutable, fire_reset_hooks, add}
use privibe.Conversation.Ops
use privibe.Conversation.Ops.{Op, run}
use privibe.Conversation.Prefix.{StartsWith, run-StartsWith, tools_for_request_stable}
use privibe.Conversation.Rewind.{rewind_outcome}
use privibe.Conversation.Repair.{
  contains_id, apply_context_refresh, drop_stale_refresh, drop_dangling_step_budget_warning,
  is_step_budget_warning, is_stale_refresh, contains, responded_ids, fix_dangling_tool_calls,
  context_refresh, no_responses, no_response,
}
use privibe.Conversation.Repair.Answered.{fix_dangling_tool_calls-answers}
use privibe.Conversation.Restore.{SavedSession, Fresh, restored_messages, system_message}
use privibe.Conversation.Restore.Stored.{KeepsStored, restored_messages-KeepsStored}
use privibe.Conversation.Restore.Again.{restored_messages_again}

abbrev system_prompt : LlmMessage
system_prompt = new_message Role.system (some "You edit code.")

abbrev hello : LlmMessage
hello = new_message Role.user (some "hello")

abbrev read_call : ToolCall
read_call = record {
  id = some "call_1";
  index = some 0;
  function = record { name = some "read_file"; arguments = some "{}" };
}

abbrev asks : LlmMessage
asks = record (new_message Role.assistant none) { tool_calls = some (read_call ∷ []) }

abbrev session : ConversationList String
session = record {
  messages = system_prompt ∷ hello ∷ [];
  tools = none;
  wire_per_message_effort = none;
  has_observer = true;
  has_save_fn = true;
  reset_hooks = 7 ∷ [];
  is_silent = false;
  trace = [];
}

abbrev history : List (Op String)
history =
    Ops.add asks
    ∷ Ops.rewind (pos 9)
    ∷ Ops.tools_for_request (some ("read_file" ∷ []))
    ∷ Ops.silently (Ops.rewind (pos 2))
    ∷ []

run-StartsWith_example : StartsWith system_prompt (run history session)
run-StartsWith_example = run-StartsWith system_prompt refl history session refl

tools_for_request_stable_example :
    (Conversation.tools_for_request
      (some ("bash" ∷ []))
      (run history (Conversation.tools_for_request (some ("grep" ∷ [])) session).1)).0
    ≡ ok ("grep" ∷ [])
unfolding Conversation.tools_for_request
tools_for_request_stable_example =
    tools_for_request_stable session (some ("grep" ∷ [])) (some ("bash" ∷ [])) history ("grep" ∷ [])
      refl

rewind_outcome_example : (Conversation.rewind (pos 2) session).1 ≡ session
unfolding Conversation.rewind
rewind_outcome_example = (rewind_outcome 2 session).1 refl

fix_dangling_tool_calls-answers_example :
    contains_id "call_1" (responded_ids (fix_dangling_tool_calls (hello ∷ asks ∷ []))) ≡ true
fix_dangling_tool_calls-answers_example =
    fix_dangling_tool_calls-answers (hello ∷ asks ∷ []) asks 0 read_call refl refl refl refl

abbrev saved_session : SavedSession String
saved_session = record {
  non_system_messages = hello ∷ asks ∷ [];
  metadata = record {
    system_prompt = some system_prompt;
    per_message_reasoning_effort = some false;
  };
  base = none;
}

abbrev first_resume : Fresh
first_resume = record { refresh_content = some "today"; refresh_id = "r1"; system_id = "s1" }

abbrev second_resume : Fresh
second_resume = record { refresh_content = some "tomorrow"; refresh_id = "r2"; system_id = "s2" }

restored_messages-KeepsStored_example :
    KeepsStored
      (system_prompt ∷ hello ∷ asks ∷ [])
      first_resume
      (restored_messages saved_session first_resume)
unfolding system_message
restored_messages-KeepsStored_example = restored_messages-KeepsStored saved_session first_resume

abbrev saved_again : SavedSession String
saved_again = record saved_session {
  non_system_messages = hello ∷ asks ∷ no_response read_call ∷ context_refresh "today" "r1" ∷ [];
}

restored_messages_again_example :
    restored_messages saved_again second_resume
    ≡ drop_last (restored_messages saved_session first_resume)
      ++ context_refresh "tomorrow" "r2" ∷ []
unfolding restored_messages system_message fix_dangling_tool_calls no_responses responded_ids
    contains_id apply_context_refresh drop_stale_refresh drop_dangling_step_budget_warning
    is_step_budget_warning is_stale_refresh contains
restored_messages_again_example =
    restored_messages_again saved_session saved_again first_resume second_resume "today" "tomorrow"
      refl refl refl
