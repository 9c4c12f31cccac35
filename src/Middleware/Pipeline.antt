-- ===== src/Middleware/Pipeline.antt =====
-- `MiddlewarePipeline`, and the pipeline that `AgentLoop._setup_middleware`
-- (privibe/core/agent_loop.py) builds.
pub mod Outcome
pub mod Setup
use Prim.Native.String.{◌++◌ as str_append}
use privibe.Prelude.{
  ℕ, String, Bool, true, false, not, ◌&&◌, ◌||◌, Option, none, some, List, [], ◌∷◌, ◌++◌, map,
  if◌then◌else◌, truthy, or_empty,
}
use privibe.Prelude.Int.{ℤ}
use privibe.Middleware.{
  MiddlewareResult, MiddlewareAction, ResetReason, Context, Outside, proceed, injecting,
}
use privibe.Middleware.Limits.{
  turn_limit_before_turn, price_limit_before_turn, auto_compact_before_turn,
}
use privibe.Middleware.StepBudget
use privibe.Middleware.StepBudget.{StepBudget}
use privibe.Middleware.RepeatedCall.{repeated_before_turn}
use privibe.Middleware.Warnings.{
  ContextWarning, ReadOnlyAgent, context_warning_before_turn, context_warning_reset,
  read_only_before_turn, read_only_reset,
}

-- The classes that implement `ConversationMiddleware`.
pub data Middleware (Float : Type 0) : Type 0 where
  turn_limit : ℤ → Middleware Float
  price_limit : Float → Middleware Float
  auto_compact : Middleware Float
  repeated_tool_call : ℕ → Middleware Float
  step_budget : StepBudget → Middleware Float
  context_warning : ContextWarning Float → Middleware Float
  read_only_agent : ReadOnlyAgent → Middleware Float

-- "\n\n".join(texts)
pub join_paragraphs : List String → String
join_paragraphs [] = ""
join_paragraphs (t ∷ []) = t
join_paragraphs (t ∷ u ∷ ts) = str_append t (str_append "\n\n" (join_paragraphs (u ∷ ts)))

-- What `run_before_turn` does with one result: note its message, return it, or go on.
pub data Verdict : Type 0 where
  note : String → Verdict
  halt : Verdict
  skip : Verdict

module _ {Float : Type 0} where
  unfoldable pub verdict : MiddlewareResult Float → Verdict
  verdict r = elim r.action [
    | MiddlewareAction.inject_message ↦ if truthy r.message then note (or_empty r.message) else skip
    | MiddlewareAction.stop ↦ halt
    | MiddlewareAction.compact ↦ halt
    | MiddlewareAction.continue ↦ skip
  ]

  -- The result where no middleware halted.
  unfoldable pub merged : List String → Bool → MiddlewareResult Float
  merged [] suspend = proceed
  merged (t ∷ ts) suspend = record (injecting (join_paragraphs (t ∷ ts))) {
    suspend_tools = suspend;
  }

module _ (o : Outside) where
  open o use {Float, gt, reaches, usage_line, step_budget_body, canonical_json}

  unfoldable pub before_turn :
      Context Float → Middleware Float → MiddlewareResult Float × Middleware Float
  before_turn ctx (turn_limit n) = (turn_limit_before_turn n ctx, turn_limit n)
  before_turn ctx (price_limit p) = (price_limit_before_turn gt p ctx, price_limit p)
  before_turn ctx auto_compact = (auto_compact_before_turn ctx, auto_compact)
  before_turn ctx (repeated_tool_call streak) =
      (repeated_before_turn canonical_json streak ctx, repeated_tool_call streak)
  before_turn ctx (step_budget s) =
      let (r, s') = StepBudget.before_turn step_budget_body ctx s in (r, step_budget s')
  before_turn ctx (context_warning s) =
      let (r, s') = context_warning_before_turn reaches usage_line ctx s in (r, context_warning s')
  before_turn ctx (read_only_agent s) =
      let (r, s') = read_only_before_turn ctx s in (r, read_only_agent s')

  pub reset_one : ResetReason → Middleware Float → Middleware Float
  reset_one reason (step_budget s) = step_budget (StepBudget.reset reason s)
  reset_one reason (context_warning s) = context_warning (context_warning_reset reason s)
  reset_one reason (read_only_agent s) = read_only_agent (read_only_reset reason s)
  reset_one reason mw = mw

  pub reset : ResetReason → List (Middleware Float) → List (Middleware Float)
  unfolding reset_one
  reset reason = map (reset_one reason)

  -- The loop, with the messages and the metadata that it has gathered so far.
  unfoldable pub run_from :
      Context Float
      → List String
      → Bool
      → List (Middleware Float)
      → MiddlewareResult Float × List (Middleware Float)
  unfolding merged
  run_from ctx texts suspend [] = (merged texts suspend, [])
  run_from ctx texts suspend (mw ∷ mws) =
      let (r, mw') = before_turn ctx mw in
      elim (verdict r) [
        | halt ↦ (r, mw' ∷ mws)
        | note text ↦
            let (out, rest) = run_from ctx (texts ++ text ∷ []) (suspend || r.suspend_tools) mws in
            (out, mw' ∷ rest)
        | skip ↦ let (out, rest) = run_from ctx texts suspend mws in (out, mw' ∷ rest)
      ]

  unfoldable pub run_before_turn :
      Context Float → List (Middleware Float) → MiddlewareResult Float × List (Middleware Float)
  unfolding run_from
  run_before_turn ctx mws = run_from ctx [] false mws
