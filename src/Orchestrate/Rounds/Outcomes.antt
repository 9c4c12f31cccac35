-- ===== src/Orchestrate/Rounds/Outcomes.antt =====
-- Each round goes on or ends, and the loop ends.
use Prim.Native.String.{◌++◌ as str_append}
use privibe.Prelude.{
  ℕ, ◌+◌, ◌≤◌, ◌≡◌, refl, ap, ◌∙◌, String, Bool, true, false, Option, none, some, [], ◌∷◌, ◌==◌,
  ◌⊎◌, inl, inr, arith, Bool-cases, get_last?-snoc,
}
use privibe.Prelude.Exec.{Result, ok, err}
use privibe.Ledger.{TaskItem}
use privibe.Ledger.Files.{clear_inflight}
use privibe.Orchestrate.Parse.{ManageAnswer, next_task}
use privibe.Orchestrate.Prompt.{Role}
use privibe.Orchestrate.Run.{
  OutcomeStatus, Outcome, Event, Setting, Run, M, pure, ◌>>=◌, ◌>>◌, handle, if_some, modify, emit,
  save_checkpoint,
}
use privibe.Orchestrate.Rounds.{
  passes, verify_aloud, finalize, resolve_done, verify_after, end_round, begin_task, execute,
  task_to_run, go_on, decide, one_round,
}
use privibe.Orchestrate.Rounds.Quiet.{
  endings, endings-append, Quiet, Quiet-refl, Steps-say, Steps-modify, step, step_then,
}
use privibe.Orchestrate.Rounds.Parts.{
  ask-Steps, keep_notes-Steps, save_aloud-Steps, manage_or_fallback-Steps,
}
use privibe.Orchestrate.Rounds.Ends.{
  Verified, IsTrue, Ended, GoesOn, finish-Ended, Ended-after, GoesOn-trans, verify_aloud-Checked,
  Checked-Verified, finalize-Ended,
}
use privibe.Orchestrate.Rounds.{checkpoint_progress}
use privibe.Orchestrate.Run.{on_ledger, save_checkpoint}
use privibe.Ledger.Files.{write_tasks}
use privibe.Ledger.Files.{write_inflight}
use privibe.Orchestrate.Rounds.Ends.{GoesOn-Quiet}
use privibe.Orchestrate.Rounds.Resolve.{Resolved, resolve_done-Resolved, fails-Quiet}

abbrev pub next_round : {W : Type 0} → Run W → Run W
next_round r = record r { rounds = r.rounds + 1 }

module _ {W : Type 0} (s : Setting W) where
  -- A round that goes on, with at most n more calls, leaves no verifier that passed.
  abbrev pub RoundEnds : ℕ → Run W → Option Outcome × Run W → Type 0
  RoundEnds n r (none, r') = GoesOn s n r r' × (passes r'.verifier ≡ false)
  RoundEnds n r (some x, r') = Ended s n r (x, r')

  verify_after_lem :
      (tag : String) (r : Run W)
      → passes r.verifier ≡ false
      → GoesOn s 0 r (verify_after s tag r).1
        × ((verify_after s tag r).0 ≡ true
            → Verified s (verify_after s tag r).1.verifier (verify_after s tag r).1.world)
        × ((verify_after s tag r).0 ≡ false → passes (verify_after s tag r).1.verifier ≡ false)
  unfolding verify_after ◌>>=◌ pure
  verify_after_lem tag r fails = elim (Bool-cases (s.job.done_command == "")) [
    | inl e ↦ rw (verify_after, e) ((refl, omega arith, refl, λ k. k), λ h. cc, λ h. fails)
    | inr e ↦
        let title : String = str_append "verifier · " tag in
        let checked = verify_aloud-Checked s title r in
        rw (verify_after, e)
          (
            checked.goes_on,
            λ h. Checked-Verified s r (verify_aloud s title r) checked h,
            λ h. ap passes checked.kept ∙ h,
          )
  ]

  -- The end of a round, of which a verified pass is known.
  end_round-RoundEnds :
      (good : Bool) (r : Run W)
      → (good ≡ true → Verified s r.verifier r.world)
      → (good ≡ false → passes r.verifier ≡ false)
      → RoundEnds 0 r (end_round s good r)
  unfolding end_round ◌>>=◌ ◌>>◌ pure
  end_round-RoundEnds true r verified fails = finish-Ended s OutcomeStatus.done _ r (verified refl)
  end_round-RoundEnds false r verified fails =
      let quiet = (save_aloud-Steps s "round_end").at r in
      let r' = (◌>>=◌ (save_checkpoint s "round_end") (checkpoint_progress s) r).1 in
      (GoesOn-Quiet s 0 r r' quiet (fails refl), fails-Quiet s 0 r r' quiet (fails refl))

  RoundEnds-after :
      (m n k : ℕ) (r r' : Run W) (out : Option Outcome × Run W)
      → GoesOn s m r r'
      → RoundEnds n r' out
      → m + n ≤ k
      → RoundEnds k r out
  RoundEnds-after m n k r r' (none, r'') goes (goes', fails) le =
      (GoesOn-trans s m n k r r' r'' goes goes' le, fails)
  RoundEnds-after m n k r r' (some x, r'') goes ended le =
      Ended-after s m n k r r' (x, r'') goes ended le

  begin_task-Quiet : (task : TaskItem) (r : Run W) → Quiet 0 r (begin_task s task r)
  unfolding begin_task write_inflight
  begin_task-Quiet task r = Quiet-refl r

  -- From the verifier on.
  judged_round-RoundEnds :
      (tag : String) (r : Run W)
      → passes r.verifier ≡ false
      → RoundEnds 0 r
          ((verify_after s tag >>= λ good. on_ledger clear_inflight >> end_round s good) r)
  unfolding ◌>>=◌ ◌>>◌ on_ledger clear_inflight
  judged_round-RoundEnds tag r fails =
      let (goes, verified, no_pass) = verify_after_lem tag r fails in
      let (good, r') = verify_after s tag r in
      let cleared = record r' { ledger = clear_inflight r'.ledger } in
      RoundEnds-after 0 0 0 r cleared (end_round s good cleared) goes
        (end_round-RoundEnds good cleared verified no_pass) (omega arith)

  execute-RoundEnds :
      (tag : String) (task : TaskItem) (r : Run W)
      → passes r.verifier ≡ false
      → RoundEnds 2 r (execute s tag task r)
  unfolding execute
  execute-RoundEnds tag task r fails =
      let Q = RoundEnds 2 r in
      step_then Q 0 0 r r (Quiet-refl r) (Steps-modify _ (begin_task-Quiet task)) λ r1 q1.
        step_then Q 0 0 r r1 q1 (Steps-say _ true) λ r2 q2.
          step Q 0 2 r r2 q2 (ask-Steps s Role.execute _ false _ "") λ report r3 q3.
            step_then Q 2 0 r r3 q3 (Steps-modify _ (λ u. Quiet-refl u)) λ r4 q4.
              step_then Q 2 0 r r4 q4 (keep_notes-Steps s report) λ r5 q5.
                RoundEnds-after 2 0 2 r r5 _ (GoesOn-Quiet s 2 r r5 q5 fails)
                  (judged_round-RoundEnds tag r5 (fails-Quiet s 2 r r5 q5 fails)) (omega arith)

  some_outcome-RoundEnds :
      (n : ℕ) (r r' : Run W) (m : M W Outcome)
      → Ended s n r (m r')
      → RoundEnds n r ((m >>= λ x. pure (some x)) r')
  unfolding ◌>>=◌ pure
  some_outcome-RoundEnds n r r' m e = e

  emit-Ended :
      (x : Outcome) (r : Run W)
      → IsTrue s x r.world
      → Ended s 0 r ((emit (Event.ended x) >> pure x) r)
  unfolding emit ◌>>=◌ ◌>>◌ pure endings
  emit-Ended x r is_true = record {
    rounds = refl;
    calls = omega arith;
    one = endings-append r.events (Event.ended x ∷ []);
    last = get_last?-snoc r.events (Event.ended x);
    is_true = is_true;
    kept = λ k. k;
  }

  go_on-RoundEnds :
      (tag : String) (overruled : Bool) (resolved : Outcome ⊎ Option TaskItem) (r r' : Run W)
      → Resolved s r resolved r'
      → RoundEnds 2 r (go_on s tag overruled resolved r')
  unfolding go_on ◌>>◌ pure
  go_on-RoundEnds tag overruled (inl x) r r' (goes, is_true) =
      Ended-after s 0 0 2 r r' _ goes (emit-Ended x r' is_true) (omega arith)
  go_on-RoundEnds tag overruled (inr t) r r' (goes, fails) =
      RoundEnds-after 0 2 2 r r' _ goes (on_task (task_to_run s t overruled r')) (omega arith)
    where
      on_task :
          (task : Result String TaskItem)
          → RoundEnds 2 r' (
              handle task
                (execute s tag)
                (λ reason. finalize s OutcomeStatus.stalled reason >>= λ x. pure (some x))
                r')
      on_task (ok task) = unfold handle in execute-RoundEnds tag task r' fails
      on_task (err reason) =
          unfold handle in
          some_outcome-RoundEnds 2 r' r' (finalize s OutcomeStatus.stalled reason)
            (finalize-Ended s OutcomeStatus.stalled reason r' fails tt)

  decide-RoundEnds :
      (tag : String) (d : ManageAnswer) (r : Run W)
      → passes r.verifier ≡ false
      → RoundEnds 2 r (decide s tag d r)
  unfolding decide ◌>>=◌ ◌>>◌ modify pure next_task write_tasks
  decide-RoundEnds tag d r fails =
      let r' = record r { tasks = d.tasks; ledger = write_tasks d.tasks r.ledger } in
      elim (Bool-cases d.done) [
        | inl e ↦
            let out = resolve_done s tag r' in
            rw (decide, e)
              (go_on-RoundEnds tag true out.0 r out.1 (resolve_done-Resolved s tag r' fails))
        | inr e ↦
            rw (decide, e)
              (go_on-RoundEnds tag false (inr (next_task d)) r r'
                ((refl, omega arith, refl, λ k. k), fails))
      ]

  pub one_round-RoundEnds :
      (r : Run W) → passes r.verifier ≡ false → RoundEnds 6 (next_round r) (one_round s r)
  unfolding one_round
  one_round-RoundEnds r fails =
      let r0 = next_round r in
      let Q = RoundEnds 6 r0 in
      step_then Q 0 0 r0 r0 (Quiet-refl r0) (Steps-say _ true) λ r1 q1.
        step Q 0 4 r0 r1 q1 (manage_or_fallback-Steps s) λ d r2 q2.
          RoundEnds-after 4 2 6 r0 r2 _ (GoesOn-Quiet s 4 r0 r2 q2 fails)
            (on_decision _ d r2 (fails-Quiet s 4 r0 r2 q2 fails)) (omega arith)
    where
      on_decision :
          (tag : String) (d : Option ManageAnswer) (r2 : Run W)
          → passes r2.verifier ≡ false
          → RoundEnds 2 r2 (
              if_some d
                (decide s tag)
                (finalize s OutcomeStatus.stalled
                    "manager's task list could not be parsed and no task is left"
                  >>= λ x. pure (some x))
                r2)
      on_decision tag none r2 fails2 =
          unfold if_some in
          some_outcome-RoundEnds 2 r2 r2
            (finalize s OutcomeStatus.stalled
              "manager's task list could not be parsed and no task is left")
            (finalize-Ended s OutcomeStatus.stalled _ r2 fails2 tt)
      on_decision tag (some d) r2 fails2 = unfold if_some in decide-RoundEnds tag d r2 fails2
