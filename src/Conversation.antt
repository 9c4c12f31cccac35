-- ===== src/Conversation.antt =====
-- `ConversationList` of privibe/core/conversation.py: the state and every operation that changes
-- it. Callbacks are recorded: `trace` holds the observer's and the hooks' calls in order.

mod Examples
pub mod Ops
pub mod Prefix
pub mod Repair
pub mod Restore
pub mod Rewind
use privibe.Prelude.{
  ℕ, zero, suc, ◌-◌, ◌&&◌, Bool, true, false, Option, none, some, List, [], ◌∷◌, ◌++◌, map, length,
  take, leb, if◌then◌else◌,
}
use privibe.Prelude.Int.{ℤ, pos, negsuc}
use privibe.Prelude.Exec.{Result, ok, err, Exec}
use privibe.Message.{LlmMessage, is_system}

-- The exceptions that the class raises.
pub data Error : Type 0 where
  system_message_is_immutable tools_already_frozen no_tools_provider no_wire_provider : Error

-- What the outside sees: a message shown to the observer, a reset hook that is called (by its
-- number), a call of the save function.
pub data Event : Type 0 where
  observed : LlmMessage → Event
  reset_fired : ℕ → Event
  saved : Event

-- `T` is the type of `AvailableTool`, which the class stores and never looks into.
pub record ConversationList (T : Type 0) : Type 0 where
  pub messages : List LlmMessage
  pub tools : Option (List T)
  pub wire_per_message_effort : Option Bool
  pub has_observer : Bool
  pub has_save_fn : Bool
  pub reset_hooks : List ℕ
  pub is_silent : Bool
  pub trace : List Event

-- Message 0 is a system message.
abbrev pub leading_system : List LlmMessage → Bool
leading_system [] = false
leading_system (m ∷ ms) = is_system m.role

module _ {T : Type 0} where
  pub new : Bool → ConversationList T
  new has_observer = record {
    messages = [];
    tools = none;
    wire_per_message_effort = none;
    has_observer = has_observer;
    has_save_fn = false;
    reset_hooks = [];
    is_silent = false;
    trace = [];
  }

  abbrev emit : List Event → ConversationList T → ConversationList T
  emit es c = record c { trace = c.trace ++ es }

  pub fire_reset_hooks : ConversationList T → ConversationList T
  fire_reset_hooks c = emit (map reset_fired c.reset_hooks) c

  pub add : LlmMessage → ConversationList T → ConversationList T
  add msg c =
      let appended = record c { messages = c.messages ++ msg ∷ [] } in
      if c.is_silent
      then appended
      else (if c.has_observer then emit (observed msg ∷ []) appended else appended)

  -- The branch `n > 0` of `rewind`.
  pub rewind_top : ℕ → Exec Error (ConversationList T) Unit
  unfolding fire_reset_hooks
  rewind_top n c =
      if leading_system c.messages && leb (length c.messages) n
      then (err system_message_is_immutable, c)
      else (
        ok tt,
        fire_reset_hooks (record c { messages = take (length c.messages - n) c.messages }),
      )

  pub rewind : ℤ → Exec Error (ConversationList T) Unit
  unfolding rewind_top
  rewind (negsuc n) c = (ok tt, c)
  rewind (pos zero) c = (ok tt, c)
  rewind (pos (suc n)) c = rewind_top (suc n) c

  pub save : ConversationList T → ConversationList T
  save c = if c.has_save_fn then emit (saved ∷ []) c else c

  pub freeze_tools : List T → Exec Error (ConversationList T) Unit
  freeze_tools ts c = elim c.tools [
    | some _ ↦ (err tools_already_frozen, c)
    | none ↦ (ok tt, record c { tools = some ts })
  ]

  -- `live` is what the tools provider would answer now; `none` if no provider is wired.
  pub tools_for_request : Option (List T) → Exec Error (ConversationList T) (List T)
  tools_for_request live c = elim c.tools [
    | some ts ↦ (ok ts, c)
    | none ↦ elim live [
      | none ↦ (err no_tools_provider, c)
      | some ts ↦ (ok ts, record c { tools = some ts })
    ]
  ]

  -- `live` is what the wire-effort provider would answer now.
  pub wire_per_message_effort_for_request : Option Bool → Exec Error (ConversationList T) Bool
  wire_per_message_effort_for_request live c = elim c.wire_per_message_effort [
    | some b ↦ (ok b, c)
    | none ↦ elim live [
      | none ↦ (err no_wire_provider, c)
      | some b ↦ (ok b, record c { wire_per_message_effort = some b })
    ]
  ]

  pub set_save_fn : ConversationList T → ConversationList T
  set_save_fn c = record c { has_save_fn = true }

  pub on_reset : ℕ → ConversationList T → ConversationList T
  on_reset hook c = record c { reset_hooks = c.reset_hooks ++ hook ∷ [] }

  -- `with conversation.silent(): body`; the old value comes back whether or not the body raises.
  pub silent :
      {E A : Type 0}
      → (ConversationList T → Result E A × ConversationList T)
      → ConversationList T
      → Result E A × ConversationList T
  silent body c =
      let (r, after) = body (record c { is_silent = true }) in
      (r, record after { is_silent = c.is_silent })

  -- `with conversation.no_reset_hooks(): body`.
  pub no_reset_hooks :
      {E A : Type 0}
      → (ConversationList T → Result E A × ConversationList T)
      → ConversationList T
      → Result E A × ConversationList T
  no_reset_hooks body c =
      let (r, after) = body (record c { reset_hooks = [] }) in
      (r, record after { reset_hooks = c.reset_hooks })
