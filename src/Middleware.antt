-- ===== src/Middleware.antt =====
-- privibe/core/middleware.py: the middlewares that run before each LLM call.
mod Examples
pub mod StepBudget
pub mod Limits
pub mod Warnings
pub mod RepeatedCall
pub mod Pipeline
use privibe.Prelude.{
  ℕ, zero, suc, ◌+◌, ◌-◌, String, Bool, true, false, not, ◌&&◌, ◌||◌, Option, none, some, List, [],
  ◌∷◌, ◌++◌, ltb, leb, length, if◌then◌else◌, same_text, truthy, or_empty, ◌==◌,
}
use privibe.Prelude.Int.{ℤ, pos, negsuc, sub_ℕ, is_nonpos, leb_ℤ}
use privibe.Message.{LlmMessage, tagged, vibe_warning_tag}

pub data MiddlewareAction : Type 0 where
  continue stop compact inject_message : MiddlewareAction

pub data ResetReason : Type 0 where
  stop compact : ResetReason

-- Why a turn ends; the source formats these values into a sentence for the user.
pub data Reason (Float : Type 0) : Type 0 where
  turn_limit : ℤ → Reason Float
  price_limit : Float → Float → Reason Float
  step_budget : ℤ → Reason Float
  repeated_call : String → ℕ → Reason Float

-- `metadata` holds the one key that the agent loop reads, SUSPEND_TOOLS_METADATA_KEY.
pub record MiddlewareResult (Float : Type 0) : Type 0 where
  pub action : MiddlewareAction
  pub message : Option String
  pub reason : Option (Reason Float)
  pub suspend_tools : Bool

-- `MiddlewareResult()`.
abbrev pub proceed : {Float : Type 0} → MiddlewareResult Float
proceed = record {
  action = MiddlewareAction.continue;
  message = none;
  reason = none;
  suspend_tools = false;
}

abbrev pub stopped : {Float : Type 0} → Reason Float → MiddlewareResult Float
stopped r = record proceed { action = MiddlewareAction.stop; reason = some r }

abbrev pub injecting : {Float : Type 0} → String → MiddlewareResult Float
injecting text = record proceed { action = MiddlewareAction.inject_message; message = some text }

-- What the middlewares take from outside: floating-point numbers, the formatted usage line, the body
-- of prompts/step_budget.md for a limit, and `json.dumps(json.loads(raw), sort_keys=True)`, which is
-- `none` where that raises.
pub record Outside : Type 1 where
  pub Float : Type 0
  pub gt : Float → Float → Bool
  -- `tokens >= max_context * percent`
  pub reaches : ℕ → ℤ → Float → Bool
  pub usage_line : ℕ → ℤ → String
  pub step_budget_body : ℤ → String
  pub canonical_json : String → Option String

-- The parts of ConversationContext, AgentStats and VibeConfig that are read.
pub record Context (Float : Type 0) : Type 0 where
  pub messages : List LlmMessage
  pub turn_id : Option String
  pub steps : ℕ
  pub session_cost : Float
  pub context_tokens : ℕ
  pub max_llm_calls_per_turn : ℤ
  pub auto_compact_threshold : ℤ
  pub active_agent : String

abbrev pub wrap_warning : String → String
wrap_warning body = tagged vibe_warning_tag body
