-- ===== src/Conversation/Restore.antt =====
-- `restore`: a conversation rebuilt from a saved session.
pub mod Repaired
pub mod Stored
pub mod Again
use privibe.Prelude.{
  String, Bool, true, false, Option, none, some, List, [], ◌∷◌, ◌++◌, map, ◌||◌, truthy,
  if◌then◌else◌,
}
use privibe.Message.{LlmMessage, Role, new_message}
use privibe.Conversation.{ConversationList, Event, observed, fire_reset_hooks}
use privibe.Conversation.Repair.{
  fix_dangling_tool_calls, drop_dangling_step_budget_warning, apply_context_refresh,
}

-- base.json
pub record SavedBase (T : Type 0) : Type 0 where
  pub system_prompt : LlmMessage
  pub tools : List T
  pub per_message_reasoning_effort : Option Bool

-- meta.json, the keys that `restore` reads.
pub record SavedMetadata : Type 0 where
  pub system_prompt : Option LlmMessage
  pub per_message_reasoning_effort : Option Bool

-- What `SessionLoader.load_session` and `SessionLoader.load_base` return.
pub record SavedSession (T : Type 0) : Type 0 where
  pub non_system_messages : List LlmMessage
  pub metadata : SavedMetadata
  pub base : Option (SavedBase T)

-- What the session does not determine: the content of a fresh context refresh, if a config is wired,
-- and the fresh message ids.
pub record Fresh : Type 0 where
  pub refresh_content : Option String
  pub refresh_id : String
  pub system_id : String

-- `any(m.reasoning_effort for m in messages)`
unfoldable pub any_effort : List LlmMessage → Bool
any_effort [] = false
any_effort (m ∷ ms) = truthy m.reasoning_effort || any_effort ms

abbrev or_else : Option Bool → Option Bool → Option Bool
or_else none b = b
or_else (some a) b = some a

unfoldable pub refreshed : Fresh → List LlmMessage → List LlmMessage
refreshed fresh messages = elim fresh.refresh_content [
  | none ↦ messages
  | some content ↦ apply_context_refresh content fresh.refresh_id messages
]

module _ {T : Type 0} where
  unfoldable pub system_message : SavedSession T → Fresh → LlmMessage
  system_message saved fresh = elim saved.base [
    | some base ↦ base.system_prompt
    | none ↦ elim saved.metadata.system_prompt [
      | some prompt ↦ prompt
      | none ↦ record (new_message Role.system (some "")) { message_id = some fresh.system_id }
    ]
  ]

  restored_tools : SavedSession T → Option (List T)
  restored_tools saved = elim saved.base [ some base ↦ some base.tools | none ↦ none ]

  -- The stored flag: base.json before meta.json before the stamps of the messages.
  pub restored_wire_flag : ConversationList T → SavedSession T → Bool
  unfolding any_effort
  restored_wire_flag c saved =
      let from_base : Option Bool = elim saved.base [
        | some base ↦ base.per_message_reasoning_effort
        | none ↦ c.wire_per_message_effort
      ] in
      elim (or_else from_base saved.metadata.per_message_reasoning_effort) [
        | some b ↦ b
        | none ↦ any_effort saved.non_system_messages
      ]

  unfoldable pub restored_messages : SavedSession T → Fresh → List LlmMessage
  unfolding system_message refreshed
  restored_messages saved fresh = refreshed fresh (
      drop_dangling_step_budget_warning
        (fix_dangling_tool_calls (system_message saved fresh ∷ saved.non_system_messages)))

  -- The hooks fire once the messages are in place; then the observer is shown each message.
  pub restore : SavedSession T → Fresh → ConversationList T → ConversationList T
  unfolding restored_tools restored_wire_flag restored_messages
  restore saved fresh c =
      let messages = restored_messages saved fresh in
      let rebuilt = fire_reset_hooks (record c {
        messages = messages;
        tools = restored_tools saved;
        wire_per_message_effort = some (restored_wire_flag c saved);
      }) in
      if c.has_observer
      then record rebuilt { trace = rebuilt.trace ++ map observed messages }
      else rebuilt
