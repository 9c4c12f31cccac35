-- ===== src/Conversation/Ops.antt =====
-- Histories of a conversation: any sequence of the operations of `ConversationList` other than
-- `restore`, which starts from a saved session. A caller may catch what an operation raises.
use privibe.Prelude.{Bool, Option, List, [], ◌∷◌, ℕ}
use privibe.Prelude.Int.{ℤ}
use privibe.Prelude.Exec.{ok}
use privibe.Message.{LlmMessage}
use privibe.Conversation
use privibe.Conversation.{ConversationList, Error}

pub data Op (T : Type 0) : Type 0 where
  add : LlmMessage → Op T
  rewind : ℤ → Op T
  save : Op T
  freeze_tools : List T → Op T
  tools_for_request : Option (List T) → Op T
  wire_for_request : Option Bool → Op T
  set_save_fn : Op T
  on_reset : ℕ → Op T
  silently : Op T → Op T
  without_hooks : Op T → Op T

module _ {T : Type 0} where
  unfoldable pub apply : Op T → ConversationList T → ConversationList T
  unfolding Conversation.add Conversation.rewind Conversation.save Conversation.freeze_tools
      Conversation.tools_for_request Conversation.wire_per_message_effort_for_request
      Conversation.set_save_fn Conversation.on_reset Conversation.silent Conversation.no_reset_hooks
  apply (add m) c = Conversation.add m c
  apply (rewind n) c = (Conversation.rewind n c).1
  apply save c = Conversation.save c
  apply (freeze_tools ts) c = (Conversation.freeze_tools ts c).1
  apply (tools_for_request live) c = (Conversation.tools_for_request live c).1
  apply (wire_for_request live) c = (Conversation.wire_per_message_effort_for_request live c).1
  apply set_save_fn c = Conversation.set_save_fn c
  apply (on_reset h) c = Conversation.on_reset h c
  apply (silently op) c =
      (Conversation.silent {E = Error} {A = Unit} (λ d. (ok tt, apply op d)) c).1
  apply (without_hooks op) c =
      (Conversation.no_reset_hooks {E = Error} {A = Unit} (λ d. (ok tt, apply op d)) c).1

  unfoldable pub run : List (Op T) → ConversationList T → ConversationList T
  unfolding apply
  run [] c = c
  run (op ∷ ops) c = run ops (apply op c)
