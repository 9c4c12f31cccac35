-- ===== src/Conversation/Restore/Repaired.antt =====
-- What each repair of a restored conversation takes off its end or adds to it: _fix_dangling_tool_calls,
-- _drop_dangling_step_budget_warning and _apply_context_refresh of privibe/core/conversation.py.
use text.Mathlib.Text.{starts_with}
use privibe.Prelude.{
  String, ◌≡◌, ap, refl, true, false, List, [], ◌∷◌, ◌++◌, ◌⊎◌, append-nil, get_last?,
  get_last?-snoc, snoc_of_get_last?, All, or_empty, arith, Option-cases, Bool-cases, inl, inr,
}
use privibe.Message.{LlmMessage, ToolCall, Role, is_assistant, is_user, is_tool, calls_of}
use privibe.Conversation.Repair.{
  contains, contains_id, responded_ids, no_response, no_responses, fix_dangling_tool_calls,
  drop_dangling_step_budget_warning, is_step_budget_warning, is_stale_refresh, drop_stale_refresh,
}

-- The request for a write-up that the step budget injects.
abbrev pub IsWriteUpRequest : LlmMessage → Type 0
IsWriteUpRequest m =
    (m.role ≡ Role.user)
    × (m.injected ≡ true)
    × (starts_with (or_empty m.content) "<vibe_warning>Step budget spent" ≡ true)

abbrev pub HoldsRefresh : LlmMessage → Type 0
HoldsRefresh m = contains (or_empty m.content) "<context_refresh>" ≡ true

user_role : (r : Role) → is_user r ≡ true → r ≡ Role.user
user_role Role.user h = refl
user_role Role.system h = cc
user_role Role.assistant h = cc
user_role Role.tool h = cc

warning-IsWriteUpRequest : (m : LlmMessage) → is_step_budget_warning m ≡ true → IsWriteUpRequest m
unfolding is_step_budget_warning
warning-IsWriteUpRequest m h = (user_role m.role (ground arith), ground arith, ground arith)

-- The last message is dropped for what it is, or nothing is.
pub dropped_warning :
    (ms : List LlmMessage)
    → (drop_dangling_step_budget_warning ms ≡ ms)
      ⊎ ((w : LlmMessage) × (ms ≡ drop_dangling_step_budget_warning ms ++ w ∷ [])
          × IsWriteUpRequest w)
unfolding drop_dangling_step_budget_warning
dropped_warning ms = elim (Option-cases (get_last? ms)) [
  | inl e ↦ inl (rw (e, drop_dangling_step_budget_warning) refl)
  | inr (m, e) ↦ elim (Bool-cases (is_step_budget_warning m)) [
    | inl is_one ↦ inr (
      m,
      rw (e, is_one, drop_dangling_step_budget_warning) (snoc_of_get_last? ms m e),
      warning-IsWriteUpRequest m is_one,
    )
    | inr other ↦ inl (rw (e, other, drop_dangling_step_budget_warning) refl)
  ]
]

pub dropped_stale :
    (ms : List LlmMessage)
    → (drop_stale_refresh ms ≡ ms)
      ⊎ ((r : LlmMessage) × (ms ≡ drop_stale_refresh ms ++ r ∷ []) × HoldsRefresh r)
unfolding drop_stale_refresh
dropped_stale ms = elim (Option-cases (get_last? ms)) [
  | inl e ↦ inl (rw (e, drop_stale_refresh) refl)
  | inr (m, e) ↦ elim (Bool-cases (is_stale_refresh m)) [
    | inl is_one ↦ inr (
      m,
      rw (e, is_one, drop_stale_refresh) (snoc_of_get_last? ms m e),
      unfold is_stale_refresh in is_one,
    )
    | inr other ↦ inl (rw (e, other, drop_stale_refresh) refl)
  ]
]

-- Neither takes an answer that the repair has added.
pub answer_stays :
    (xs : List LlmMessage) (tc : ToolCall)
    → (drop_dangling_step_budget_warning (xs ++ no_response tc ∷ []) ≡ xs ++ no_response tc ∷ [])
      × (drop_stale_refresh (xs ++ no_response tc ∷ []) ≡ xs ++ no_response tc ∷ [])
unfolding drop_dangling_step_budget_warning drop_stale_refresh
answer_stays xs tc =
    let last = get_last?-snoc xs (no_response tc) in
    let no_warning : is_step_budget_warning (no_response tc) ≡ false =
      unfold is_step_budget_warning no_response in refl in
    let no_refresh : is_stale_refresh (no_response tc) ≡ false =
      unfold is_stale_refresh no_response contains in refl in
    (
      rw (last, drop_dangling_step_budget_warning) (rw no_warning refl),
      rw (last, drop_stale_refresh) (rw no_refresh refl),
    )

abbrev pub EndsInAnswer : List LlmMessage → Type 0
EndsInAnswer answers =
    (front : List LlmMessage) × (tc : ToolCall) × (answers ≡ front ++ no_response tc ∷ [])
    × All (λ m. is_tool m.role ≡ true) answers

no_responses_cases :
    (ids : List String) (tcs : List ToolCall)
    → (no_responses ids tcs ≡ []) ⊎ EndsInAnswer (no_responses ids tcs)
unfolding no_responses
no_responses_cases ids [] = inl refl
no_responses_cases ids (tc ∷ tcs) = elim (Bool-cases (contains_id (or_empty tc.id) ids)) [
  | inl answered ↦ rw (no_responses, answered) (no_responses_cases ids tcs)
  | inr open_call ↦
      rw (no_responses, open_call)
        (elim (no_responses_cases ids tcs) [
          | inl e ↦ rw e (inr ([], tc, refl, (unfold no_response in refl, tt)))
          | inr (front, last, e, all) ↦ inr (
            no_response tc ∷ front,
            last,
            ap (λ xs. no_response tc ∷ xs) e,
            (unfold no_response in refl, all),
          )
        ])
]

-- The repair adds answers to the calls of the last message, or nothing.
pub fixed_cases :
    (stored : List LlmMessage)
    → (fix_dangling_tool_calls stored ≡ stored)
      ⊎ ((answers : List LlmMessage) × (fix_dangling_tool_calls stored ≡ stored ++ answers)
          × EndsInAnswer answers)
unfolding fix_dangling_tool_calls
fixed_cases stored = elim (Option-cases (get_last? stored)) [
  | inl e ↦ inl (rw (e, fix_dangling_tool_calls) refl)
  | inr (m, e) ↦ elim (Bool-cases (is_assistant m.role)) [
    | inr other ↦ inl (rw (e, other, fix_dangling_tool_calls) refl)
    | inl asks ↦ elim (no_responses_cases (responded_ids stored) (calls_of m)) [
      | inl nothing ↦ inl (rw (e, asks, fix_dangling_tool_calls) (rw nothing (append-nil stored)))
      | inr some_answers ↦ inr (_, rw (e, asks, fix_dangling_tool_calls) refl, some_answers)
    ]
  ]
]
