-- ===== src/Orchestrate/Rounds/Loop.antt =====
-- The loop ends within its rounds.
use Prim.Native.String.{◌++◌ as str_append}
use privibe.Prelude.{
  ℕ, zero, suc, ◌+◌, ◌-◌, ◌*◌, ◌≤◌, ◌<◌, ◌≡◌, refl, ap, ◌∙◌, String, false, Option, none, some, [],
  ◌∷◌, ◌++◌, inl, inr, arith, Bool-cases, ltb, get_last?, ltb→lt,
}
use privibe.Str.{decimal}
use privibe.Orchestrate.Run.{
  OutcomeStatus, Outcome, Event, Setting, Run, pure, ◌>>=◌, if_some, max_rounds,
}
use privibe.Orchestrate.Rounds.{passes, finalize, one_round, rounds_loop}
use privibe.Orchestrate.Rounds.Quiet.{endings, NoPass}
use privibe.Orchestrate.Rounds.Ends.{IsTrue, Ended, GoesOn, finalize-Ended}
use privibe.Orchestrate.Rounds.Outcomes.{RoundEnds, next_round, one_round-RoundEnds}

module _ {W : Type 0} (s : Setting W) where
  -- The loop has yielded one outcome more, the last of all and true, in the rounds that are left and
  -- with at most six calls for each and two for the finalizer.
  pub record Finished (r : Run W) (x : Outcome) (r' : Run W) : Type 0 where
    pub rounds : r'.rounds ≤ r.rounds + (max_rounds s - r.rounds)
    pub calls : r'.calls ≤ r.calls + (6 * (max_rounds s - r.rounds) + 2)
    pub one : endings r'.events ≡ endings r.events ++ x ∷ []
    pub last : get_last? r'.events ≡ some (Event.ended x)
    pub is_true : IsTrue s x r'.world
    pub kept : NoPass r.ledger.state → NoPass r'.ledger.state

  Finished-last : (r : Run W) (x : Outcome) (r' : Run W) → Ended s 2 r (x, r') → Finished r x r'
  Finished-last r x r' e = record {
    rounds = omega (arith, e.rounds);
    calls = omega (arith, e.calls);
    one = e.one;
    last = e.last;
    is_true = e.is_true;
    kept = e.kept;
  }

  Finished-round :
      (r : Run W) (x : Outcome) (r' : Run W)
      → r.rounds < max_rounds s
      → Ended s 6 (next_round r) (x, r')
      → Finished r x r'
  Finished-round r x r' lt e = record {
    rounds = omega (arith, e.rounds);
    calls = omega (arith, e.calls);
    one = e.one;
    last = e.last;
    is_true = e.is_true;
    kept = e.kept;
  }

  Finished-next :
      (r r' : Run W) (x : Outcome) (r'' : Run W)
      → r.rounds < max_rounds s
      → GoesOn s 6 (next_round r) r'
      → Finished r' x r''
      → Finished r x r''
  Finished-next r r' x r'' lt (rounds, calls, ends, keeps) f = record {
    rounds = omega (arith, f.rounds);
    calls = omega (arith, f.calls);
    one = f.one ∙ ap (◌++ x ∷ []) ends;
    last = f.last;
    is_true = f.is_true;
    kept = λ k. f.kept (keeps k);
  }

  -- With fuel for one round more than are left the loop ends.
  pub rounds_loop-Finished :
      (fuel : ℕ) (r : Run W)
      → max_rounds s - r.rounds < fuel
      → passes r.verifier ≡ false
      → (x : Outcome) × ((rounds_loop s fuel r).0 ≡ some x) × Finished r x (rounds_loop s fuel r).1
  unfolding rounds_loop ◌>>=◌ pure
  rounds_loop-Finished zero r lt fails = absurd (omega arith)
  rounds_loop-Finished (suc fuel) r lt fails = elim (Bool-cases (ltb r.rounds (max_rounds s))) [
    | inl more ↦
        let less = ltb→lt r.rounds (max_rounds s) more in
        rw (rounds_loop, more)
          (after less (one_round s r).0 (one_round s r).1 (one_round-RoundEnds s r fails)
            (λ r' left fails'. rounds_loop-Finished fuel r' left fails'))
    | inr over ↦
        let text : String = str_append (decimal (max_rounds s)) " rounds used" in
        let out = finalize s OutcomeStatus.rounds_exhausted text r in
        rw (rounds_loop, over)
          (
            out.0,
            refl,
            Finished-last r out.0 out.1
                (finalize-Ended s OutcomeStatus.rounds_exhausted text r fails (ground arith)),
          )
  ]
    where
      after :
          r.rounds < max_rounds s
          → (ended : Option Outcome) (r' : Run W) → RoundEnds s 6 (next_round r) (ended, r')
          → ((r'' : Run W)
              → max_rounds s - r''.rounds < fuel
              → passes r''.verifier ≡ false
              → (x : Outcome) × ((rounds_loop s fuel r'').0 ≡ some x)
                × Finished r'' x (rounds_loop s fuel r'').1)
          → (x : Outcome) × ((if_some ended (λ x. λ run. (some x, run)) (rounds_loop s fuel) r').0
              ≡ some x)
            × Finished r x (if_some ended (λ x. λ run. (some x, run)) (rounds_loop s fuel) r').1
      after less (some x) r' ended next =
          unfold if_some in (x, refl, Finished-round r x r' less ended)
      after less none r' (goes, fails') next =
          unfold if_some in
          let (x, e, f) = next r' (omega (arith, goes.0)) fails' in
          (x, e, Finished-next r r' x (rounds_loop s fuel r').1 less goes f)
