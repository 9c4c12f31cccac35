-- ===== src/Rewind/Examples.antt =====
-- `RewindManager` on a concrete session.
use privibe.Prelude.{
  ◌≡◌, refl, String, Bool, true, false, none, some, List, [], ◌∷◌, if◌then◌else◌, ◌==◌,
}
use privibe.Prelude.Int.{pos}
use privibe.Message.{LlmMessage, ToolCall, Role, new_message}
use privibe.Disk.{Disk}
use privibe.Rewind.{RewindManager, get_checkpoint, rewind_to_message, rewind_to_index}
use privibe.Rewind.Cut.{rewind_to_message_outcome}
use privibe.Rewind.Boundaries.{rewind_to_index_outcome}
use privibe.Rewind.Turn.{
  Step, said, edited, checkpointed, steps, begin_turn, rewind_to_message-turn,
}
use privibe.Disk.{readable}
use privibe.Prelude.{some-injective, inl, ap, sym}
use privibe.Message.{is_tool}
use privibe.Rewind.{has_calls}
use privibe.Rewind.Turn.{Undone}

abbrev system_prompt : LlmMessage
system_prompt = new_message Role.system (some "You edit code.")

abbrev request : LlmMessage
request = new_message Role.user (some "rename it")

abbrev edit_call : ToolCall
edit_call = record {
  id = some "call_1";
  index = some 0;
  function = record { name = some "search_replace"; arguments = some "{}" };
}

abbrev asks : LlmMessage
asks = record (new_message Role.assistant none) { tool_calls = some (edit_call ∷ []) }

abbrev answer : LlmMessage
answer = record (new_message Role.tool (some "done")) { tool_call_id = some "call_1" }

abbrev files : Disk
files path = if path == "a.py" then some (97 ∷ []) else none

abbrev unlocked : String → Bool
unlocked path = false

abbrev in_session : List LlmMessage → RewindManager String
in_session messages = record {
  checkpoints = [];
  conversation = record {
    messages = messages;
    tools = none;
    wire_per_message_effort = none;
    has_observer = false;
    has_save_fn = true;
    reset_hooks = 0 ∷ [];
    is_silent = false;
    trace = [];
  };
  disk = files;
  trace = [];
}

abbrev work : List Step
work =
    said asks
    ∷ edited "a.py" (some (98 ∷ []))
    ∷ edited "b.py" (some (99 ∷ []))
    ∷ said answer
    ∷ checkpointed
    ∷ edited "a.py" none
    ∷ []

rewind_to_message-turn_example : Undone (in_session (system_prompt ∷ [])) request (
    rewind_to_message unlocked
      (pos 1)
      true
      (steps readable work (begin_turn readable request (in_session (system_prompt ∷ [])))))
unfolding get_checkpoint
rewind_to_message-turn_example =
    rewind_to_message-turn unlocked (in_session (system_prompt ∷ [])) request work readable refl
      refl (λ path. refl) (λ path. refl)

rewind_to_message_outcome_example :
    (rewind_to_message unlocked
      (pos 1)
      false
      (in_session (system_prompt ∷ request ∷ asks ∷ []))).1.conversation.messages
    ≡ system_prompt ∷ []
rewind_to_message_outcome_example =
    ((rewind_to_message_outcome unlocked 1 false
        (in_session (system_prompt ∷ request ∷ asks ∷ []))).0
      request refl refl).1

rewind_to_index_outcome_example :
    (rewind_to_index unlocked 4 false
      (in_session (system_prompt ∷ request ∷ asks ∷ answer ∷ request ∷ []))).1.conversation.messages
    ≡ system_prompt ∷ request ∷ asks ∷ answer ∷ []
unfolding has_calls
rewind_to_index_outcome_example =
    ((rewind_to_index_outcome unlocked 4 false
        (in_session (system_prompt ∷ request ∷ asks ∷ answer ∷ request ∷ []))).0
      (
        answer,
        refl,
        refl,
        λ next e. ap (λ m. is_tool m.role) (sym (some-injective e)),
        record {
          results = answer ∷ [];
          asker = asks;
          older = request ∷ system_prompt ∷ [];
          shape = refl;
          all_results = (refl, tt);
          asks = refl;
          calls = refl;
          answered = (λ named. inl refl, tt);
        },
      )).1
