-- ===== src/Wire/Examples.antt =====
-- A request's messages.
use privibe.Prelude.{ℕ, String, some, List, [], ◌∷◌, ◌≡◌, refl, map}
use privibe.Message.{LlmMessage, Role, new_message, is_user, is_assistant}
use privibe.Conversation.Restore.{any_effort}
use privibe.Str.{is_space, lstrip, rstrip}
use privibe.Wire.{
  merged_messages, insert_between_consecutive_assistant_messages, merge_consecutive_user_messages,
}
use privibe.Wire.Turns.{Apart, merged_messages-Apart}
use privibe.Wire.Kept.{not_of_user, merged_messages-kept}

abbrev fresh : ℕ → String
fresh n = "fresh"

abbrev stored : List LlmMessage
stored =
    new_message Role.user (some "look")
    ∷ record (new_message Role.user (some "hard")) { reasoning_effort = some "xhigh" }
    ∷ new_message Role.assistant (some "first")
    ∷ new_message Role.assistant (some "second")
    ∷ []

merged_messages-Apart_example :
    Apart is_user (merged_messages fresh fresh stored)
    × Apart is_assistant (merged_messages fresh fresh stored)
merged_messages-Apart_example = merged_messages-Apart fresh fresh stored

merged_messages-kept_example :
    (not_of_user (merged_messages fresh fresh stored) ≡ not_of_user stored)
    × (any_effort (merged_messages fresh fresh stored) ≡ any_effort stored)
merged_messages-kept_example = merged_messages-kept fresh fresh stored

-- The second user message joins the first, and a placeholder parts the answers.
stored_contents :
    map (λ (m : LlmMessage). m.content) (merged_messages fresh fresh stored)
    ≡ some "look\n\nhard" ∷ some "first" ∷ some "" ∷ some "second" ∷ []
unfolding merged_messages insert_between_consecutive_assistant_messages
    merge_consecutive_user_messages is_space lstrip rstrip
stored_contents = refl
