-- ===== src/Middleware/Examples.antt =====
-- The middlewares on concrete turns. The numbers that stand for floats are whole numbers here.
use privibe.Prelude.{ℕ, ◌*◌, ◌≡◌, ◌≤◌, refl, inl, true, false, none, some, [], ◌∷◌, ltb}
use privibe.Prelude.Int.{pos, leb_ℤ}
use privibe.Message.{Role, new_message}
use privibe.Middleware.{Outside, Context, Reason, stopped}
use privibe.Middleware.StepBudget as Budget
use privibe.Middleware.StepBudget.{StepBudget, llm_call, compaction}
use privibe.Middleware.StepBudget.Schedule.{before_turn_schedule}
use privibe.Middleware.RepeatedCall.{assistant_messages_this_turn}
use privibe.Middleware.RepeatedCall.ThisTurn.{answers_to_user, assistant_messages_this_turn_lem}
use privibe.Middleware.Warnings.{ReadOnlyAgent, warnings, warnings-le-one}
use privibe.Middleware.Pipeline.{auto_compact, step_budget, run_before_turn, verdict, before_turn}
use privibe.Middleware.Limits.{
  turn_limit_before_turn, price_limit_before_turn, auto_compact_before_turn,
}
use privibe.Middleware.Pipeline.Outcome.{outcome, results, run_before_turn-outcome}
use privibe.Middleware.Pipeline.Setup.{arranged, run_before_turn_compact}

abbrev outside : Outside
outside = record {
  Float = ℕ;
  gt = λ a b. ltb b a;
  reaches = λ tokens max percent. leb_ℤ max (pos (tokens * percent));
  usage_line = λ tokens max. "context is filling up";
  step_budget_body = λ limit. "write up";
  canonical_json = λ raw. some raw;
}

abbrev turn : Context ℕ
turn = record {
  messages = new_message Role.user (some "go") ∷ new_message Role.assistant (some "done") ∷ [];
  turn_id = some "turn_2";
  steps = 3;
  session_cost = 1;
  context_tokens = 100;
  max_llm_calls_per_turn = pos 2;
  auto_compact_threshold = pos 90;
  active_agent = "plan";
}

abbrev left_over : StepBudget
left_over = record { turn_id = some "turn_1"; calls = 9; summary_requested = true }

before_turn_schedule_example :
    (Budget.before_turn
      (λ limit. "write up")
      turn
      (Budget.run
        (λ limit. "write up")
        turn
        (llm_call ∷ compaction ∷ llm_call ∷ llm_call ∷ [])
        left_over)).0
    ≡ stopped (Reason.step_budget (pos 2))
unfolding Budget.count_calls
before_turn_schedule_example =
    before_turn_schedule (λ limit. "write up") turn 1 refl left_over
      (llm_call ∷ compaction ∷ llm_call ∷ llm_call ∷ []) (inl refl)

run_before_turn-outcome_example :
    (run_before_turn outside turn (step_budget Budget.new ∷ auto_compact ∷ [])).0
    ≡ outcome (results outside turn (step_budget Budget.new ∷ auto_compact ∷ []))
run_before_turn-outcome_example =
    run_before_turn-outcome outside turn (step_budget Budget.new ∷ auto_compact ∷ [])

abbrev plan_agent : ReadOnlyAgent
plan_agent = record {
  agent_name = "plan";
  reminder = "plan only";
  exit_message = "you may edit";
  was_active = false;
}

abbrev chat_agent : ReadOnlyAgent
chat_agent = record plan_agent { agent_name = "chat" }

run_before_turn_compact_example :
    (run_before_turn outside turn
      (arranged (some (pos 9)) (some 5) left_over none plan_agent chat_agent)).1
    ≡ arranged (some (pos 9)) (some 5) left_over none plan_agent chat_agent
unfolding run_before_turn verdict before_turn turn_limit_before_turn price_limit_before_turn
    auto_compact_before_turn
run_before_turn_compact_example =
    run_before_turn_compact outside turn (some (pos 9)) (some 5) left_over none plan_agent
      chat_agent refl

assistant_messages_this_turn_lem_example :
    assistant_messages_this_turn
      (new_message Role.assistant (some "old")
        ∷ new_message Role.user (some "go")
        ∷ new_message Role.assistant (some "done")
        ∷ [])
      3
    ≡ new_message Role.assistant (some "done") ∷ []
unfolding answers_to_user
assistant_messages_this_turn_lem_example =
    assistant_messages_this_turn_lem
      (new_message Role.assistant (some "old")
        ∷ new_message Role.user (some "go")
        ∷ new_message Role.assistant (some "done")
        ∷ [])
      2

warnings-le-one_example :
    warnings outside.reaches outside.usage_line
      (turn ∷ turn ∷ [])
      (record { threshold_percent = 1; has_warned = false })
    ≤ 1
warnings-le-one_example =
    warnings-le-one outside.reaches outside.usage_line (turn ∷ turn ∷ [])
      (record { threshold_percent = 1; has_warned = false })
