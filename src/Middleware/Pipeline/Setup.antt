-- ===== src/Middleware/Pipeline/Setup.antt =====
-- `AgentLoop._setup_middleware` of privibe/core/agent_loop.py.
use privibe.Prelude.{
  String, ◌≡◌, ◌≢◌, refl, ap, Bool, true, false, Option, none, some, List, [], ◌∷◌, ◌++◌, arith,
  if◌then◌else◌, All,
}
use mathlib.Core.Path.{ap₂}
use privibe.Prelude.Int.{ℤ}
use privibe.Middleware.{MiddlewareAction, Context, Outside}
use privibe.Middleware.StepBudget as Budget
use privibe.Middleware.StepBudget.{StepBudget}
use privibe.Middleware.Limits.{turn_limit_before_turn, price_limit_before_turn}
use privibe.Middleware.RepeatedCall.{repeated_before_turn}
use privibe.Middleware.Warnings.{
  ContextWarning, ReadOnlyAgent, context_warning_before_turn, read_only_before_turn,
}
use privibe.Middleware.Pipeline.{
  Middleware, turn_limit, price_limit, auto_compact, repeated_tool_call, step_budget,
  context_warning, read_only_agent, Verdict, note, halt, skip, verdict, merged, before_turn,
  run_from, run_before_turn,
}

module _ {Float : Type 0} where
  abbrev optional : {A : Type 0} → (A → Middleware Float) → Option A → List (Middleware Float)
  optional make none = []
  optional make (some a) = make a ∷ []

  abbrev up_to_compaction : Option ℤ → Option Float → List (Middleware Float)
  up_to_compaction max_turns max_price =
      optional turn_limit max_turns ++ (optional price_limit max_price ++ auto_compact ∷ [])

  abbrev after_compaction :
      StepBudget
      → Option (ContextWarning Float)
      → ReadOnlyAgent
      → ReadOnlyAgent
      → List (Middleware Float)
  after_compaction budget warning plan chat =
      repeated_tool_call 3
      ∷ step_budget budget
      ∷ (optional context_warning warning ++ (read_only_agent plan ∷ read_only_agent chat ∷ []))

  -- The order of the pipeline, with the middlewares in any state.
  abbrev pub arranged :
      Option ℤ
      → Option Float
      → StepBudget
      → Option (ContextWarning Float)
      → ReadOnlyAgent
      → ReadOnlyAgent
      → List (Middleware Float)
  arranged max_turns max_price budget warning plan chat =
      up_to_compaction max_turns max_price ++ after_compaction budget warning plan chat

  -- `half` is 0.5; `plan` and `chat` are the two agents' names and texts.
  pub setup_middleware :
      Option ℤ
      → Option Float
      → Bool
      → Float
      → ReadOnlyAgent
      → ReadOnlyAgent
      → List (Middleware Float)
  setup_middleware max_turns max_price context_warnings half plan chat =
      arranged max_turns max_price Budget.new
        (if context_warnings
          then some (record { threshold_percent = half; has_warned = false })
          else none)
        (record plan { was_active = false }) (record chat { was_active = false })

  is_auto_compact : Middleware Float → Bool
  is_auto_compact auto_compact = true
  is_auto_compact _ = false

module _ (o : Outside) (ctx : Context o.Float) where
  before_turn_not_compact :
      (mw : Middleware o.Float)
      → is_auto_compact mw ≡ false
      → (before_turn o ctx mw).0.action ≢ MiddlewareAction.compact
  unfolding before_turn is_auto_compact
  before_turn_not_compact (turn_limit n) h = unfold turn_limit_before_turn in ground arith
  before_turn_not_compact (price_limit p) h = unfold price_limit_before_turn in ground arith
  before_turn_not_compact auto_compact h = cc
  before_turn_not_compact (repeated_tool_call streak) h =
      unfold repeated_before_turn in ground arith
  before_turn_not_compact (step_budget s) h =
      unfold Budget.before_turn Budget.counted in ground arith
  before_turn_not_compact (context_warning s) h = unfold context_warning_before_turn in ground arith
  before_turn_not_compact (read_only_agent s) h = unfold read_only_before_turn in ground arith

  abbrev Compacts : List String → Bool → List (Middleware o.Float) → Type 0
  Compacts texts suspend mws =
      (run_from o ctx texts suspend mws).0.action ≡ MiddlewareAction.compact

  merged_not_compact :
      (texts : List String) (suspend : Bool)
      → (merged {Float = o.Float} texts suspend).action ≢ MiddlewareAction.compact
  unfolding merged
  merged_not_compact [] suspend e = cc
  merged_not_compact (t ∷ ts) suspend e = cc

  run_not_compact :
      (mws : List (Middleware o.Float))
      → All (λ mw. is_auto_compact mw ≡ false) mws
      → (texts : List String) (suspend : Bool) → ¬ Compacts texts suspend mws
  unfolding run_from
  run_not_compact [] h texts suspend = merged_not_compact texts suspend
  run_not_compact (mw ∷ mws) (h, hs) texts suspend =
      on_verdict (verdict (before_turn o ctx mw).0) refl (run_not_compact mws hs)
    where
      on_verdict :
          (v : Verdict)
          → verdict (before_turn o ctx mw).0 ≡ v
          → ((texts : List String) (suspend : Bool) → ¬ Compacts texts suspend mws)
          → ¬ Compacts texts suspend (mw ∷ mws)
      on_verdict halt e later = rw (e, run_from) (before_turn_not_compact mw h)
      on_verdict skip e later = rw (e, run_from) (later texts suspend)
      on_verdict (note text) e later = rw (e, run_from) (later (texts ++ text ∷ []) _)

  -- The middlewares that keep no state.
  is_stateless : Middleware o.Float → Bool
  is_stateless (turn_limit n) = true
  is_stateless (price_limit p) = true
  is_stateless auto_compact = true
  is_stateless (repeated_tool_call n) = true
  is_stateless _ = false

  before_turn_stateless :
      (mw : Middleware o.Float) → is_stateless mw ≡ true → (before_turn o ctx mw).1 ≡ mw
  unfolding before_turn is_stateless
  before_turn_stateless (turn_limit n) h = refl
  before_turn_stateless (price_limit p) h = refl
  before_turn_stateless auto_compact h = refl
  before_turn_stateless (repeated_tool_call n) h = refl
  before_turn_stateless _ h = cc

  compact_changes_nothing :
      (front rest : List (Middleware o.Float))
      → All (λ mw. is_stateless mw ≡ true) front
      → All (λ mw. is_auto_compact mw ≡ false) rest
      → (texts : List String) (suspend : Bool) → Compacts texts suspend (front ++ rest)
      → (run_from o ctx texts suspend (front ++ rest)).1 ≡ front ++ rest
  unfolding run_from
  compact_changes_nothing [] rest h hs texts suspend =
      λ c. absurd (run_not_compact rest hs texts suspend c)
  compact_changes_nothing (mw ∷ front) rest (h, hf) hs texts suspend =
      on_verdict (verdict (before_turn o ctx mw).0) refl (compact_changes_nothing front rest hf hs)
    where
      on_verdict :
          (v : Verdict)
          → verdict (before_turn o ctx mw).0 ≡ v
          → ((texts : List String) (suspend : Bool)
              → Compacts texts suspend (front ++ rest)
              → (run_from o ctx texts suspend (front ++ rest)).1 ≡ front ++ rest)
          → Compacts texts suspend (mw ∷ front ++ rest)
          → (run_from o ctx texts suspend (mw ∷ front ++ rest)).1 ≡ mw ∷ front ++ rest
      on_verdict halt e later =
          rw (e, run_from) (λ c. ap (λ x. x ∷ (front ++ rest)) (before_turn_stateless mw h))
      on_verdict skip e later =
          rw (e, run_from) (λ c. ap₂ ◌∷◌ (before_turn_stateless mw h) (later texts suspend c))
      on_verdict (note text) e later =
          rw (e, run_from)
            (λ c. ap₂ ◌∷◌ (before_turn_stateless mw h) (later (texts ++ text ∷ []) _ c))

  up_to_compaction-stateless :
      (max_turns : Option ℤ) (max_price : Option o.Float)
      → All (λ mw. is_stateless mw ≡ true) (up_to_compaction max_turns max_price)
  unfolding is_stateless
  up_to_compaction-stateless none none = (refl, tt)
  up_to_compaction-stateless none (some p) = (refl, (refl, tt))
  up_to_compaction-stateless (some n) none = (refl, (refl, tt))
  up_to_compaction-stateless (some n) (some p) = (refl, (refl, (refl, tt)))

  after_compaction-not_compact :
      (budget : StepBudget) (warning : Option (ContextWarning o.Float)) (plan chat : ReadOnlyAgent)
      → All (λ mw. is_auto_compact mw ≡ false) (after_compaction budget warning plan chat)
  unfolding is_auto_compact
  after_compaction-not_compact budget none plan chat = (refl, (refl, (refl, (refl, tt))))
  after_compaction-not_compact budget (some w) plan chat =
      (refl, (refl, (refl, (refl, (refl, tt)))))

  -- A pass of the agent loop's pipeline that asks for a compaction leaves every middleware as it was:
  -- the LLM call that the loop makes after the compaction is not counted against the step budget, and
  -- no warning is lost.
  pub run_before_turn_compact :
      (max_turns : Option ℤ) (max_price : Option o.Float) (budget : StepBudget)
      (warning : Option (ContextWarning o.Float)) (plan chat : ReadOnlyAgent)
      → (run_before_turn o ctx (arranged max_turns max_price budget warning plan chat)).0.action
        ≡ MiddlewareAction.compact
      → (run_before_turn o ctx (arranged max_turns max_price budget warning plan chat)).1
        ≡ arranged max_turns max_price budget warning plan chat
  unfolding run_before_turn
  run_before_turn_compact max_turns max_price budget warning plan chat =
      compact_changes_nothing (up_to_compaction max_turns max_price)
        (after_compaction budget warning plan chat) (up_to_compaction-stateless max_turns max_price)
        (after_compaction-not_compact budget warning plan chat) [] false
