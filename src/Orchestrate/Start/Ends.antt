-- ===== src/Orchestrate/Start/Ends.antt =====
-- Every run ends with one outcome, and what the outcome says is so.
use privibe.Prelude.{
  ℕ, ◌+◌, ◌-◌, ◌*◌, ◌≤◌, ◌≡◌, refl, ap, ◌∙◌, String, Bool, true, false, Option, some, [], ◌∷◌, ◌++◌,
  arith, ltb, if◌then◌else◌, get_last?,
}
use privibe.Prelude.Exec.{Result, ok, err}
use privibe.Ledger.Files.{Ledger, log, write_tasks, write_plan, write_notes}
use privibe.Orchestrate.Verifier.{VerifierResult}
use privibe.Orchestrate.Prompt.{Role}
use privibe.Orchestrate.Run.{JobRecord, Outcome, Event, Setting, Run, M, pure, max_rounds}
use privibe.Orchestrate.Rounds.{passes, rounds_loop}
use privibe.Orchestrate.Rounds.Quiet.{
  endings, NoPass, Quiet, Quiet-refl, Steps, Steps-pure, Steps-note, Steps-say, Steps-modify,
  Steps-on_ledger, Steps-bind, Steps-then, step_then,
}
use privibe.Orchestrate.Rounds.Parts.{ask-Steps, plan-Steps, save_aloud-Steps}
use privibe.Orchestrate.Rounds.Ends.{IsTrue}
use privibe.Orchestrate.Rounds.Loop.{Finished, rounds_loop-Finished}
use privibe.Orchestrate.Start.{
  StartError, new_run, plan_phase, brainstorm_phase, phases, begin, prepare, run_from,
  run_orchestration,
}
use privibe.Orchestrate.Start.Begun.{Begun, BeginsWell, begin-BeginsWell, prepare-Begun}

module _ {W : Type 0} (s : Setting W) where
  plan_phase-Steps : Steps 4 (plan_phase s)
  unfolding plan_phase log write_tasks write_plan
  plan_phase-Steps = Steps-then 0 4 4 (omega arith) (Steps-say _ true) (
      Steps-bind 4 0 4 (omega arith) (plan-Steps s) (λ answer.
        Steps-then 0 0 0 (omega arith) (Steps-modify _ (λ r. Quiet-refl r))
          (save_aloud-Steps s "planned")))

  brainstorm_phase-Steps : Steps 2 (brainstorm_phase s)
  unfolding brainstorm_phase write_notes
  brainstorm_phase-Steps = Steps-then 0 2 2 (omega arith) (Steps-say _ true) (
      Steps-bind 2 0 2 (omega arith) (ask-Steps s Role.brainstorm _ true "" "") (λ notes.
        Steps-then 0 0 0 (omega arith) (Steps-on_ledger _ (λ l. refl))
          (Steps-then 0 0 0 (omega arith) (Steps-note _) (save_aloud-Steps s "brainstormed"))))

  Steps-if :
      (n : ℕ) (b : Bool) (m : M W (Unit {0})) → Steps n m → Steps n (if b then m else pure tt)
  Steps-if n true m h = h
  Steps-if n false m h = Steps-pure n tt

  -- The run from `start` on ended with x.
  pub record EndsWith (start : Run W) (x : Outcome) (final : Run W) : Type 0 where
    pub rounds : final.rounds ≤ start.rounds + (max_rounds s - start.rounds)
    pub calls : final.calls ≤ start.calls + (6 * (max_rounds s - start.rounds) + 8)
    pub one : endings final.events ≡ x ∷ []
    pub last : get_last? final.events ≡ some (Event.ended x)
    pub is_true : IsTrue s x final.world
    pub no_pass : NoPass final.ledger.state

  after_phases-EndsWith :
      (r r' : Run W) (x : Outcome) (final : Run W)
      → Begun s r
      → Quiet 6 r r'
      → Finished s r' x final
      → EndsWith r x final
  after_phases-EndsWith r r' x final b (rounds, calls, ends, verifier, keeps) f = record {
    rounds = omega (arith, f.rounds);
    calls = omega (arith, f.calls, rounds);
    one = f.one ∙ ap (◌++ x ∷ []) (ends ∙ b.none_yet);
    last = f.last;
    is_true = f.is_true;
    no_pass = f.kept (keeps b.fails b.no_pass);
  }

  phases-EndsWith :
      (phase_done : ℕ) (r : Run W)
      → Begun s r
      → (x : Outcome) × ((phases s phase_done r).0 ≡ some x)
        × EndsWith r x (phases s phase_done r).1
  unfolding phases
  phases-EndsWith phase_done r b =
      let Q =
        λ (out : Option Outcome × Run W). (x : Outcome) × (out.0 ≡ some x) × EndsWith r x out.1 in
      step_then Q 0 4 r r (Quiet-refl r)
        (Steps-if 4 (ltb phase_done 1) (plan_phase s) plan_phase-Steps)
        λ r1 q1.
          step_then Q 4 2 r r1 q1
            (Steps-if 2 (ltb phase_done 2) (brainstorm_phase s) brainstorm_phase-Steps)
            λ r2 q2.
              let (x, e, f) =
                rounds_loop-Finished s (max_rounds s + 1) r2 (omega arith)
                  (ap passes q2.3 ∙ b.fails) in
              (x, e, after_phases-EndsWith r r2 x (rounds_loop s (max_rounds s + 1) r2).1 b q2 f)

  -- What a run gives: the error with which it does not begin, or one outcome from where it begins, with
  -- the direction of the user and the head of the messages added.
  pub data Gives (begun : Result StartError (ℕ × Run W)) (direction : String)
      (result : Result StartError (Option Outcome × Run W)) : Type 0 where
    no_start : (e : StartError) → begun ≡ err e → result ≡ err e → Gives begun direction result
    one_outcome :
        (phase_done : ℕ) (first : Run W) (x : Outcome) (final : Run W)
        → begun ≡ ok (phase_done, first)
        → result ≡ ok (some x, final)
        → EndsWith (prepare s direction first) x final
        → Gives begun direction result

  -- Whatever the model answers, and however often it fails, a run on a ledger whose checkpoints hold no
  -- verifier that passed either does not begin or ends with one outcome, the last that it yields, in no
  -- more rounds than are left where it begins and with at most six calls for each of them and eight
  -- besides. DONE is
  -- claimed only if the job's command was the last thing to run and passed, DONE without verification
  -- only if the job has no command, and exhaustion only when the rounds are used up. No checkpoint of the
  -- ledger it leaves holds a verifier that passed either.
  pub run_orchestration-Gives :
      (wanted : Option ℕ) (direction : String) (l : Ledger VerifierResult JobRecord) (w : W)
      → NoPass l.state
      → Gives (begin s wanted (new_run s l w)) direction (run_orchestration s wanted direction l w)
  unfolding run_orchestration
  run_orchestration-Gives wanted direction l w no_pass =
      from (begin s wanted (new_run s l w)) (begin-BeginsWell s wanted l w no_pass)
    where
      from :
          (begun : Result StartError (ℕ × Run W))
          → BeginsWell s begun
          → Gives begun direction (run_from s direction begun)
      from (err e) h = unfold run_from in Gives.no_start e refl refl
      from (ok (phase_done, r)) h =
          let start = prepare s direction r in
          let b = prepare-Begun s direction r h in
          let (x, e, ended) = phases-EndsWith phase_done start b in
          unfold run_from in
          Gives.one_outcome phase_done r x (phases s phase_done start).1 refl
            (ap (λ o. ok (o, (phases s phase_done start).1)) e) ended
