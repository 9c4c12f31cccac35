-- ===== src/Middleware/Warnings.antt =====
-- `ContextWarningMiddleware` and `ReadOnlyAgentMiddleware`: messages that are injected once.
use privibe.Prelude.{
  ℕ, suc, ◌≤◌, ◌≡◌, refl, String, Bool, true, false, not, ◌&&◌, List, [], ◌∷◌, if◌then◌else◌, ◌==◌,
  arith,
}
use privibe.Prelude.Int.{ℤ, is_nonpos}
use privibe.Middleware.{
  MiddlewareResult, MiddlewareAction, ResetReason, Context, proceed, injecting, wrap_warning,
}

pub record ContextWarning (Float : Type 0) : Type 0 where
  pub threshold_percent : Float
  pub has_warned : Bool

-- `agent_name`, and the texts of the two messages.
pub record ReadOnlyAgent : Type 0 where
  pub agent_name : String
  pub reminder : String
  pub exit_message : String
  pub was_active : Bool

pub read_only_reset : ResetReason → ReadOnlyAgent → ReadOnlyAgent
read_only_reset reason s = record s { was_active = false }

module _ {Float : Type 0} where
  -- `reaches tokens max percent` is `tokens >= max * percent`; `usage_line` is the formatted text.
  unfoldable pub context_warning_before_turn :
      (ℕ → ℤ → Float → Bool)
      → (ℕ → ℤ → String)
      → Context Float
      → ContextWarning Float
      → MiddlewareResult Float × ContextWarning Float
  context_warning_before_turn reaches usage_line ctx s =
      let max_context = ctx.auto_compact_threshold in
      if s.has_warned
      then (proceed, s)
      else (if is_nonpos max_context
          then (proceed, s)
          else (if reaches ctx.context_tokens max_context s.threshold_percent
              then (
                injecting (wrap_warning (usage_line ctx.context_tokens max_context)),
                record s { has_warned = true },
              )
              else (proceed, s)))

  pub context_warning_reset : ResetReason → ContextWarning Float → ContextWarning Float
  context_warning_reset reason s = record s { has_warned = false }

  unfoldable pub read_only_before_turn :
      Context Float → ReadOnlyAgent → MiddlewareResult Float × ReadOnlyAgent
  read_only_before_turn ctx s =
      let is_active = ctx.active_agent == s.agent_name in
      if s.was_active && not is_active
      then (injecting s.exit_message, record s { was_active = false })
      else if is_active && not s.was_active
      then (injecting s.reminder, record s { was_active = true })
      else (proceed, record s { was_active = is_active })

  -- The messages that a row of calls injects, one flag for each call.
  pub warnings :
      (ℕ → ℤ → Float → Bool) → (ℕ → ℤ → String) → List (Context Float) → ContextWarning Float → ℕ
  unfolding context_warning_before_turn
  warnings reaches usage_line [] s = 0
  warnings reaches usage_line (ctx ∷ ctxs) s =
      let (r, s') = context_warning_before_turn reaches usage_line ctx s in
      let rest = warnings reaches usage_line ctxs s' in
      elim r.action [ MiddlewareAction.inject_message ↦ suc rest | _ ↦ rest ]

  module _ (reaches : ℕ → ℤ → Float → Bool) (usage_line : ℕ → ℤ → String) where
    no_warnings_after :
        (ctxs : List (Context Float)) (s : ContextWarning Float)
        → s.has_warned ≡ true
        → warnings reaches usage_line ctxs s ≡ 0
    unfolding warnings
    no_warnings_after [] s h = refl
    no_warnings_after (ctx ∷ ctxs) s h = ground (arith, no_warnings_after ctxs s)

    -- Between two resets the usage warning is injected at most once, however long the session.
    pub warnings-le-one :
        (ctxs : List (Context Float)) (s : ContextWarning Float)
        → warnings reaches usage_line ctxs s ≤ 1
    unfolding warnings
    warnings-le-one [] s = omega arith
    warnings-le-one (ctx ∷ ctxs) s =
        ground
          (arith, warnings-le-one ctxs s, no_warnings_after ctxs (record s { has_warned = true }))

  -- What a call injects depends on the agents of that call and of the one before it alone: the
  -- reminder when the agent has just become active, the exit message when it has just been left, and
  -- nothing when it stayed as it was.
  pub read_only_before_turn_switch :
      (ctx later : Context Float) (s : ReadOnlyAgent)
      → (read_only_before_turn later (read_only_before_turn ctx s).1).0 ≡ (
          if later.active_agent == s.agent_name
          then (if ctx.active_agent == s.agent_name then proceed else injecting s.reminder)
          else (if ctx.active_agent == s.agent_name then injecting s.exit_message else proceed))
  unfolding read_only_before_turn
  read_only_before_turn_switch ctx later s = ground arith
