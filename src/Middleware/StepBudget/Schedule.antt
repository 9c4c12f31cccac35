-- ===== src/Middleware/StepBudget/Schedule.antt =====
-- The schedule of a turn: calls up to the limit proceed, the next one asks for a summary, and every
-- one after that stops the turn.
use native.Mathlib.Nat.{add-zero, zero-add}
use text.Mathlib.TextPositions.{eq_refl}
use privibe.Prelude.{
  ℕ, suc, ◌+◌, ◌≡◌, ◌⊎◌, inl, inr, refl, ap, ◌∙◌, String, true, false, Option, none, some, List, [],
  ◌∷◌, ltb, same_text, arith,
}
use privibe.Prelude.Int.{ℤ, pos}
use privibe.Middleware.{Context}
use privibe.Middleware.StepBudget.{
  StepBudget, new, in_turn, counted, before_turn, Tick, llm_call, compaction, count_calls, run,
  answer,
}

module _ {Float : Type 0} (ctx : Context Float) where
  -- The state counts `earlier` calls of the turn.
  record Counts (limit earlier : ℕ) (s : StepBudget) : Type 0 where
    counted : (in_turn ctx.turn_id s).calls ≡ earlier
    requested : (in_turn ctx.turn_id s).summary_requested ≡ ltb limit earlier

same_text_refl : (t : Option String) → same_text t t ≡ true
same_text_refl none = refl
same_text_refl (some s) = eq_refl s

same_turn : (t : Option String) (s : StepBudget) → same_text t (in_turn t s).turn_id ≡ true
unfolding in_turn
same_turn t s = ground (arith, same_text_refl t)

in_turn_same : (t : Option String) (s : StepBudget) → same_text t s.turn_id ≡ true → in_turn t s ≡ s
unfolding in_turn
in_turn_same t s h = rw h

module _ {Float : Type 0} (body : ℤ → String) (ctx : Context Float) (n : ℕ) where
  abbrev after : StepBudget → StepBudget
  after t = (counted {Float = Float} body (suc n) t).1

  turn_id-counted : (t : StepBudget) → (after t).turn_id ≡ t.turn_id
  unfolding counted
  turn_id-counted t = ground arith

  in_turn-counted :
      (s : StepBudget)
      → in_turn ctx.turn_id (after (in_turn ctx.turn_id s)) ≡ after (in_turn ctx.turn_id s)
  in_turn-counted s = in_turn_same ctx.turn_id (after (in_turn ctx.turn_id s)) (
      ap (same_text ctx.turn_id) (turn_id-counted (in_turn ctx.turn_id s))
      ∙ same_turn ctx.turn_id s)

  counted_lem :
      (earlier : ℕ) (t : StepBudget)
      → t.calls ≡ earlier
      → t.summary_requested ≡ ltb (suc n) earlier
      → ((counted body (suc n) t).0 ≡ answer body ctx (suc n) earlier)
        × ((after t).calls ≡ suc earlier)
        × ((after t).summary_requested ≡ ltb (suc n) (suc earlier))
  unfolding counted
  counted_lem earlier t c r = (ground arith, ground arith, ground arith)

  module _ (limit : ctx.max_llm_calls_per_turn ≡ pos (suc n)) where
    before_turn_limited :
        (s : StepBudget) → before_turn body ctx s ≡ counted body (suc n) (in_turn ctx.turn_id s)
    unfolding before_turn
    before_turn_limited s = rw (limit, before_turn)

    answer_lem :
        (earlier : ℕ) (s : StepBudget)
        → Counts ctx (suc n) earlier s
        → (before_turn body ctx s).0 ≡ answer body ctx (suc n) earlier
    answer_lem earlier s h =
        rw before_turn_limited (counted_lem earlier (in_turn ctx.turn_id s) h.counted h.requested).0

    step_Counts :
        (earlier : ℕ) (s : StepBudget)
        → Counts ctx (suc n) earlier s
        → Counts ctx (suc n) (suc earlier) (before_turn body ctx s).1
    step_Counts earlier s h =
        let (_, c, r) = counted_lem earlier (in_turn ctx.turn_id s) h.counted h.requested in
        rw before_turn_limited
          (record { counted = rw in_turn-counted c; requested = rw in_turn-counted r })

    run-Counts :
        (ticks : List Tick) (earlier : ℕ) (s : StepBudget)
        → Counts ctx (suc n) earlier s
        → Counts ctx (suc n) (earlier + count_calls ticks) (run body ctx ticks s)
    unfolding run count_calls
    run-Counts [] earlier s h = rw add-zero h
    run-Counts (llm_call ∷ ticks) earlier s h =
        let e : earlier + suc (count_calls ticks) ≡ suc earlier + count_calls ticks = omega arith in
        rw e (run-Counts ticks (suc earlier) (before_turn body ctx s).1 (step_Counts earlier s h))
    run-Counts (compaction ∷ ticks) earlier s h = run-Counts ticks earlier s h

    new_turn-Counts :
        (s : StepBudget)
        → (same_text ctx.turn_id s.turn_id ≡ false) ⊎ (s ≡ new)
        → Counts ctx (suc n) 0 s
    unfolding in_turn
    new_turn-Counts s (inl other) = record { counted = ground arith; requested = ground arith }
    new_turn-Counts s (inr e) = record {
      counted = ground (arith, ap StepBudget.calls e);
      requested = ground (arith, ap StepBudget.summary_requested e);
    }

    -- From the first call of a turn, whatever the state that an earlier turn left, and with
    -- compactions anywhere in between: the calls up to the limit proceed, the next one asks the model
    -- to write up with its tools suspended, and each one after that stops the turn.
    pub before_turn_schedule :
        (s : StepBudget) (ticks : List Tick)
        → (same_text ctx.turn_id s.turn_id ≡ false) ⊎ (s ≡ new)
        → (before_turn body ctx (run body ctx ticks s)).0
          ≡ answer body ctx (suc n) (count_calls ticks)
    before_turn_schedule s ticks start =
        answer_lem (count_calls ticks) (run body ctx ticks s)
          (rw zero-add at (run-Counts ticks 0 s (new_turn-Counts s start)))
