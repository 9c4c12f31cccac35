-- ===== src/Middleware/Limits.antt =====
-- `TurnLimitMiddleware`, `PriceLimitMiddleware` and `AutoCompactMiddleware`: they keep no state.
use privibe.Prelude.{Bool, not, ◌&&◌, if◌then◌else◌}
use privibe.Prelude.Int.{ℤ, pos, sub_ℕ, is_nonpos, leb_ℤ}
use privibe.Middleware.{MiddlewareResult, MiddlewareAction, Reason, Context, proceed, stopped}

module _ {Float : Type 0} where
  unfoldable pub turn_limit_before_turn : ℤ → Context Float → MiddlewareResult Float
  turn_limit_before_turn max_turns ctx =
      if leb_ℤ max_turns (sub_ℕ ctx.steps 1) then stopped (Reason.turn_limit max_turns) else proceed

  -- `gt a b` is `a > b`.
  unfoldable pub price_limit_before_turn :
      (Float → Float → Bool) → Float → Context Float → MiddlewareResult Float
  price_limit_before_turn gt max_price ctx =
      if gt ctx.session_cost max_price
      then stopped (Reason.price_limit ctx.session_cost max_price)
      else proceed

  unfoldable pub auto_compact_before_turn : Context Float → MiddlewareResult Float
  auto_compact_before_turn ctx =
      if not (is_nonpos ctx.auto_compact_threshold)
        && leb_ℤ ctx.auto_compact_threshold (pos ctx.context_tokens)
      then record proceed { action = MiddlewareAction.compact }
      else proceed
