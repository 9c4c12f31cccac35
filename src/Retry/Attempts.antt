-- ===== src/Retry/Attempts.antt =====
-- Which attempt decides.
use mathlib.Core.Path.{subst}
use privibe.Prelude.{
  eqb, eqb_iff, sym, ℕ, zero, suc, ◌+◌, ◌-◌, ◌≤◌, ◌<◌, ◌≡◌, refl, Bool, true, false, ◌&&◌, ◌⊎◌, inl,
  inr, List, length, ltb, arith, Bool-cases,
}
use privibe.Prelude.Exec.{Result, ok, err}
use privibe.Retry.{RetryError, raised, attempts, async_retry}

module _ {E A : Type 0} (call : ℕ → Result E A) (is_retryable : E → Bool) where
  -- The call number `i` raised an error that may be tried again.
  abbrev pub Retryable : ℕ → Type 0
  Retryable i = (e : E) × (call i ≡ err e) × (is_retryable e ≡ true)

  -- The call number `i` decides: it returned, or raised an error that is not tried again, or raised in
  -- the last attempt.
  abbrev pub Decides : ℕ → ℕ → Result (RetryError E) A → Type 0
  Decides tries i r =
      ((a : A) × (call i ≡ ok a) × (r ≡ ok a))
      ⊎ ((e : E) × (call i ≡ err e)
          × (r ≡ err (raised e))
          × ((is_retryable e ≡ false) ⊎ (suc i ≡ tries)))

  -- What the loop does from an attempt on.
  Settles : ℕ → ℕ → Result (RetryError E) A × List ℕ → Type 0
  Settles tries attempt out =
      (i : ℕ) × (attempt ≤ i)
      × (i < tries)
      × Decides tries i out.0
      × ((j : ℕ) → attempt ≤ j → j < i → Retryable j)
      × (attempt + length out.1 ≡ i)

  attempts_ok :
      (tries n attempt : ℕ) (a : A)
      → call attempt ≡ ok a
      → attempt < tries
      → Settles tries attempt (attempts call is_retryable tries (suc n) attempt)
  unfolding attempts Settles
  attempts_ok tries n attempt a e lt =
      rw (e, attempts)
        (
          attempt,
          omega arith,
          lt,
          inl (a, e, refl),
          λ j le below. absurd (omega arith),
          omega arith,
        )

  last_or_final :
      (tries attempt : ℕ) (x : E)
      → attempt < tries
      → (ltb attempt (tries - 1) && is_retryable x) ≡ false
      → (is_retryable x ≡ false) ⊎ (suc attempt ≡ tries)
  last_or_final tries attempt x lt stop = elim (Bool-cases (is_retryable x)) [
    | inl again ↦ inr (ground arith)
    | inr final ↦ inl final
  ]

  attempts_raise :
      (tries n attempt : ℕ) (x : E)
      → call attempt ≡ err x
      → attempt < tries
      → (ltb attempt (tries - 1) && is_retryable x) ≡ false
      → Settles tries attempt (attempts call is_retryable tries (suc n) attempt)
  unfolding attempts Settles
  attempts_raise tries n attempt x e lt stop =
      rw (e, attempts, stop)
        (
          attempt,
          omega arith,
          lt,
          inr (x, e, refl, last_or_final tries attempt x lt stop),
          λ j le below. absurd (omega arith),
          omega arith,
        )

  attempts_again :
      (tries n attempt : ℕ) (x : E)
      → call attempt ≡ err x
      → (ltb attempt (tries - 1) && is_retryable x) ≡ true
      → Settles tries (suc attempt) (attempts call is_retryable tries n (suc attempt))
      → Settles tries attempt (attempts call is_retryable tries (suc n) attempt)
  unfolding attempts Settles
  attempts_again tries n attempt x e again (i, le, lt, decides, before, slept) =
      rw (e, attempts, again)
        (
          i,
          omega arith,
          lt,
          decides,
          λ j le' below. elim (Bool-cases (eqb j attempt)) [
            | inl same ↦ subst Retryable (sym ((eqb_iff j attempt).0 same)) (x, e, ground arith)
            | inr other ↦ before j (ground arith) below
          ],
          omega (arith, slept),
        )

  attempts_lem :
      (tries n attempt : ℕ)
      → attempt + suc n ≡ tries
      → Settles tries attempt (attempts call is_retryable tries (suc n) attempt)
  attempts_lem tries zero attempt total = on_call (call attempt) refl
    where
      on_call :
          (r : Result E A)
          → call attempt ≡ r
          → Settles tries attempt (attempts call is_retryable tries 1 attempt)
      on_call (ok a) e = attempts_ok tries 0 attempt a e (omega arith)
      on_call (err x) e = attempts_raise tries 0 attempt x e (omega arith) (ground arith)
  attempts_lem tries (suc n) attempt total =
      on_call (call attempt) refl (attempts_lem tries n (suc attempt) (omega arith))
    where
      on_call :
          (r : Result E A)
          → call attempt ≡ r
          → Settles tries (suc attempt) (attempts call is_retryable tries (suc n) (suc attempt))
          → Settles tries attempt (attempts call is_retryable tries (suc (suc n)) attempt)
      on_call (ok a) e rest = attempts_ok tries (suc n) attempt a e (omega arith)
      on_call (err x) e rest = elim (Bool-cases (ltb attempt (tries - 1) && is_retryable x)) [
        | inl again ↦ attempts_again tries (suc n) attempt x e again rest
        | inr stop ↦ attempts_raise tries (suc n) attempt x e (omega arith) stop
      ]

  -- With at least one try allowed, one call decides, at most as many as allowed are made, and every
  -- call before it raised an error that may be tried again, with one sleep after each.
  pub async_retry-Decides :
      (tries : ℕ)
      → 0 < tries
      → (i : ℕ) × (i < tries)
        × Decides tries i (async_retry call is_retryable tries).0
        × ((j : ℕ) → j < i → Retryable j)
        × (length (async_retry call is_retryable tries).1 ≡ i)
  unfolding async_retry
  async_retry-Decides zero h = absurd (omega arith)
  async_retry-Decides (suc n) h =
      unfold Settles in
      let (i, le, lt, decides, before, slept) = attempts_lem (suc n) n 0 (omega arith) in
      (i, lt, decides, λ j below. before j (omega arith) below, omega (arith, slept))
