-- ===== src/Middleware/RepeatedCall/ThisTurn.antt =====
-- What the walk back from the newest message finds.
use mathlib.Core.List.{reverse}
use privibe.Prelude.{
  ℕ, zero, suc, ◌+◌, ◌≡◌, sym, not, ◌&&◌, List, [], ◌∷◌, ◌++◌, append_assoc, append-nil, length,
  length-append, take, if◌then◌else◌, arith,
}
use privibe.Message.{LlmMessage, is_user, is_assistant}
use privibe.Middleware.RepeatedCall.{walk_back, assistant_messages_this_turn}

-- The assistant messages that stand, from the newest message on, before the first one that the user
-- wrote.
unfoldable pub answers_to_user : List LlmMessage → List LlmMessage
answers_to_user [] = []
answers_to_user (msg ∷ older) =
    let rest = answers_to_user older in
    if is_user msg.role && not msg.injected
    then []
    else if is_assistant msg.role
    then msg ∷ rest
    else rest

walk_back_lem :
    (limit room : ℕ) (found ms : List LlmMessage)
    → length found + suc room ≡ limit
    → walk_back limit found ms ≡ found ++ take (suc room) (answers_to_user ms)
unfolding walk_back answers_to_user
walk_back_lem limit room found [] h = sym (append-nil found)
walk_back_lem limit zero found (msg ∷ older) h =
    ground (
      arith,
      append-nil found,
      walk_back_lem limit zero found older,
      length-append found (msg ∷ []),
    )
walk_back_lem limit (suc room) found (msg ∷ older) h = ground (
  arith,
  append-nil found,
  walk_back_lem limit (suc room) found older,
  walk_back_lem limit room (found ++ msg ∷ []) older,
  length-append found (msg ∷ []),
  append_assoc found (msg ∷ []) (take (suc room) (answers_to_user older)),
)

-- The walk finds the assistant messages of the current turn, newest first, and of these as many as
-- it was asked for: a message that the user wrote ends it, an injected one does not.
pub assistant_messages_this_turn_lem :
    (messages : List LlmMessage) (room : ℕ)
    → assistant_messages_this_turn messages (suc room)
      ≡ take (suc room) (answers_to_user (reverse messages))
unfolding assistant_messages_this_turn
assistant_messages_this_turn_lem messages room =
    walk_back_lem (suc room) room [] (reverse messages) (omega arith)
