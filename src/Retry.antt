-- ===== src/Retry.antt =====
-- `async_retry` of privibe/core/utils/retry.py: a call that may raise, tried again.
mod Examples
pub mod Attempts
use privibe.Prelude.{
  ℕ, zero, suc, ◌+◌, ◌-◌, Bool, true, false, ◌&&◌, List, [], ◌∷◌, ltb, if◌then◌else◌,
}
use privibe.Prelude.Exec.{Result, ok, err}

-- The last line of the wrapper, reached only if there is no attempt at all.
pub data RetryError (E : Type 0) : Type 0 where
  raised : E → RetryError E
  exhausted : RetryError E

module _ {E A : Type 0} where
  -- The loop over `attempt`, with `n` attempts to go: `call i` is what the function does when it is
  -- called for the i-th time, and the second component lists the attempts after which it slept.
  pub attempts : (ℕ → Result E A) → (E → Bool) → ℕ → ℕ → ℕ → Result (RetryError E) A × List ℕ
  attempts call is_retryable tries zero attempt = (err exhausted, [])
  attempts call is_retryable tries (suc n) attempt =
      let (r, slept) = attempts call is_retryable tries n (suc attempt) in
      elim (call attempt) [
        | ok a ↦ (ok a, [])
        | err e ↦
            if ltb attempt (tries - 1) && is_retryable e
            then (r, attempt ∷ slept)
            else (err (raised e), [])
      ]

  pub async_retry : (ℕ → Result E A) → (E → Bool) → ℕ → Result (RetryError E) A × List ℕ
  unfolding attempts
  async_retry call is_retryable tries = attempts call is_retryable tries tries 0
