-- ===== src/Conversation/Repair/Answered.antt =====
-- The tool calls at the tail are answered.
use privibe.Prelude.{
  ℕ, zero, suc, String, ◌≡◌, ap, refl, ◌∙◌, ◌||◌, true, false, some, List, [], ◌∷◌, ◌++◌, get_elem?,
  get_last?, or_empty, truthy, arith,
}
use text.Mathlib.TextPositions.{eq_refl}
use privibe.Message.{LlmMessage, ToolCall, is_assistant, calls_of}
use privibe.Conversation.Repair.{responded_ids, contains_id, no_responses, fix_dangling_tool_calls}

pub responded_ids-append :
    (xs ys : List LlmMessage) → responded_ids (xs ++ ys) ≡ responded_ids xs ++ responded_ids ys
unfolding responded_ids
responded_ids-append [] ys = refl
responded_ids-append (m ∷ ms) ys = ground (arith, responded_ids-append ms ys)

contains_id-append :
    (i : String) (xs ys : List String)
    → contains_id i (xs ++ ys) ≡ (contains_id i xs || contains_id i ys)
unfolding contains_id
contains_id-append i [] ys = refl
contains_id-append i (j ∷ js) ys = ground (arith, contains_id-append i js ys)

-- Each call is answered among `ids` or among the messages that the loop adds.
no_responses_lem :
    (ids : List String) (tcs : List ToolCall) (n : ℕ) (tc : ToolCall)
    → get_elem? tcs n ≡ some tc
    → truthy tc.id ≡ true
    → (contains_id (or_empty tc.id) ids
        || contains_id (or_empty tc.id) (responded_ids (no_responses ids tcs)))
      ≡ true
unfolding no_responses responded_ids contains_id
no_responses_lem ids [] n tc h t = cc
no_responses_lem ids (c ∷ tcs) zero tc h t = ground (arith, eq_refl (or_empty tc.id))
no_responses_lem ids (c ∷ tcs) (suc n) tc h t = ground (arith, no_responses_lem ids tcs n tc h t)

module _ (ms : List LlmMessage) (last : LlmMessage) (e : get_last? ms ≡ some last) where
  pub fix_dangling_tool_calls_assistant :
      is_assistant last.role ≡ true
      → fix_dangling_tool_calls ms ≡ ms ++ no_responses (responded_ids ms) (calls_of last)
  unfolding fix_dangling_tool_calls
  fix_dangling_tool_calls_assistant a = ground arith

  pub fix_dangling_tool_calls_other :
      is_assistant last.role ≡ false → fix_dangling_tool_calls ms ≡ ms
  unfolding fix_dangling_tool_calls
  fix_dangling_tool_calls_other a = ground arith

-- After the repair every call of a last assistant message that has an id has its result.
pub fix_dangling_tool_calls-answers :
    (ms : List LlmMessage) (last : LlmMessage) (n : ℕ) (tc : ToolCall)
    → get_last? ms ≡ some last
    → is_assistant last.role ≡ true
    → get_elem? (calls_of last) n ≡ some tc
    → truthy tc.id ≡ true
    → contains_id (or_empty tc.id) (responded_ids (fix_dangling_tool_calls ms)) ≡ true
fix_dangling_tool_calls-answers ms last n tc e a h t =
    ap (λ all. contains_id (or_empty tc.id) (responded_ids all))
      (fix_dangling_tool_calls_assistant ms last e a)
    ∙ ap (contains_id (or_empty tc.id)) (responded_ids-append ms _)
    ∙ contains_id-append (or_empty tc.id) (responded_ids ms) _
    ∙ no_responses_lem (responded_ids ms) (calls_of last) n tc h t
