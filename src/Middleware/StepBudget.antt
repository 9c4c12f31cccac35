-- ===== src/Middleware/StepBudget.antt =====
-- `StepBudgetMiddleware`.
pub mod Schedule
use privibe.Prelude.{
  ℕ, zero, suc, ◌+◌, ◌≡◌, ◌⊎◌, inl, inr, refl, ap, ◌∙◌, String, Bool, true, false, not, Option,
  none, some, List, [], ◌∷◌, ltb, leb, eqb, if◌then◌else◌, same_text, eq_iff, ◌==◌, arith,
}
use text.Mathlib.TextPositions.{eq_refl}
use privibe.Prelude.Int.{ℤ, pos, negsuc, is_nonpos, leb_ℤ}
use privibe.Middleware.{
  MiddlewareResult, MiddlewareAction, ResetReason, Reason, Context, proceed, stopped, injecting,
  wrap_warning,
}

pub record StepBudget : Type 0 where
  pub turn_id : Option String
  pub calls : ℕ
  pub summary_requested : Bool

-- `__init__`, and what `reset` sets.
abbrev pub new : StepBudget
new = record { turn_id = none; calls = 0; summary_requested = false }

-- The count starts anew where the turn is another one than that of the last call.
pub in_turn : Option String → StepBudget → StepBudget
in_turn turn_id s =
    if same_text turn_id s.turn_id
    then s
    else record { turn_id = turn_id; calls = 0; summary_requested = false }

-- `limit` is `max_llm_calls_per_turn`, and is not negative here.
unfoldable pub counted :
    {Float : Type 0} → (ℤ → String) → ℕ → StepBudget → MiddlewareResult Float × StepBudget
counted body limit s =
    let now : StepBudget = record s { calls = s.calls + 1 } in
    if leb now.calls limit
    then (proceed, now)
    else if not now.summary_requested
    then (
      record (injecting (wrap_warning (body (pos limit)))) { suspend_tools = true },
      record now { summary_requested = true },
    )
    else (stopped (Reason.step_budget (pos limit)), now)

-- `body` is prompts/step_budget.md with the limit put in.
unfoldable pub before_turn :
    {Float : Type 0}
    → (ℤ → String)
    → Context Float
    → StepBudget
    → MiddlewareResult Float × StepBudget
before_turn body ctx s = elim ctx.max_llm_calls_per_turn [
  | negsuc n ↦ (proceed, s)
  | pos zero ↦ (proceed, s)
  | pos (suc n) ↦ counted body (suc n) (in_turn ctx.turn_id s)
]

unfoldable pub reset : ResetReason → StepBudget → StepBudget
reset ResetReason.compact s = s
reset ResetReason.stop s = new

-- What happens to the middleware during one turn: an LLM call is about to be made, or the
-- conversation has been compacted.
pub data Tick : Type 0 where
  llm_call compaction : Tick

unfoldable pub count_calls : List Tick → ℕ
count_calls [] = 0
count_calls (llm_call ∷ ticks) = suc (count_calls ticks)
count_calls (compaction ∷ ticks) = count_calls ticks

module _ {Float : Type 0} (body : ℤ → String) (ctx : Context Float) where
  pub run : List Tick → StepBudget → StepBudget
  unfolding before_turn reset
  run [] s = s
  run (llm_call ∷ ticks) s = run ticks (before_turn body ctx s).1
  run (compaction ∷ ticks) s = run ticks (reset ResetReason.compact s)

  -- The answer to a call that `earlier` calls of the turn precede.
  abbrev pub answer : ℕ → ℕ → MiddlewareResult Float
  answer limit earlier =
      if ltb earlier limit
      then proceed
      else if eqb earlier limit
      then record (injecting (wrap_warning (body (pos limit)))) { suspend_tools = true }
      else stopped (Reason.step_budget (pos limit))
