-- ===== src/Orchestrate/Rounds/Parts.antt =====
-- The parts of a round that leave most of a run as it was.
use privibe.Prelude.{ℕ, zero, suc, ◌*◌, refl, String, Bool, true, false, none, some, arith}
use privibe.Ledger.{Checkpoint}
use privibe.Ledger.Files.{write_tasks}
use privibe.Orchestrate.Verifier.{VerifierResult}
use privibe.Orchestrate.Parse.{parse_worker_notes, parse_plan, parse_manage}
use privibe.Orchestrate.Prompt.{Role}
use privibe.Orchestrate.Run.{◌>>=◌, Setting, save_checkpoint, emit}
use privibe.Orchestrate.Run.Calls.{
  call_model, call_attempts, call_with_retry, message_for, ask, plan_attempts, manage_attempts,
  manage, plan, retry_note,
}
use privibe.Orchestrate.Rounds.{
  advanced, first_open, overrule_done, fallback_decision, manage_or_fallback, keep_notes,
  checkpoint_progress,
}
use privibe.Ledger.Files.{log, save_transcript, write_notes}
use privibe.Orchestrate.Run.{checkpoint_of}
use privibe.Orchestrate.Rounds.Quiet.{
  endings_say, NoPass-write_checkpoint, Quiet-refl, Steps-pure, Steps-note, Steps-on_ledger,
  Steps-bind, Steps-then, Steps-handle, Steps-if_some, Steps-no_retry, Steps-count_retry,
  Steps-count_call,
}
use privibe.Orchestrate.Rounds.Quiet.{Steps}

module _ {W : Type 0} (s : Setting W) where
  call_model-Steps :
      (role : Role) (message effort : String) (answer_only : Bool)
      → Steps 0 (call_model s role message effort answer_only)
  unfolding call_model
  call_model-Steps role message effort answer_only = record { at = λ r. Quiet-refl r }

  -- The first of the attempts is counted by `ask`.
  call_attempts-Steps :
      (left : ℕ) (role : Role) (message effort : String) (answer_only : Bool)
      → Steps left (call_attempts s (suc left) role message effort answer_only)
  unfolding call_attempts
  call_attempts-Steps zero role message effort answer_only =
      Steps-bind 0 0 0 (omega arith) (call_model-Steps role message effort answer_only) (λ answer.
        Steps-handle 0 answer (λ a. Steps-pure 0 a)
          (λ e.
            Steps-then 0 0 0 (omega arith) (Steps-note _)
              (Steps-then 0 0 0 (omega arith) Steps-no_retry (Steps-pure 0 ""))))
  call_attempts-Steps (suc left) role message effort answer_only =
      let again = call_attempts-Steps left role message effort answer_only in
      Steps-bind 0 (suc left) (suc left) (omega arith)
        (call_model-Steps role message effort answer_only)
        (λ answer.
          Steps-handle (suc left) answer (λ a. Steps-pure (suc left) a)
            (λ e.
              Steps-then 0 (suc left) (suc left) (omega arith) (Steps-note _)
                (Steps-then 1 left (suc left) (omega arith) (Steps-count_retry left) again)))

  call_with_retry-Steps :
      (role : Role) (message effort : String) (answer_only : Bool)
      → Steps 1 (call_with_retry s role message effort answer_only)
  unfolding call_with_retry
  call_with_retry-Steps role message effort answer_only =
      call_attempts-Steps 1 role message effort answer_only

  save_checkpoint-Steps : (phase : String) → Steps 0 (save_checkpoint s phase)
  unfolding save_checkpoint log checkpoint_of
  save_checkpoint-Steps phase = record {
    at = λ r. (refl, omega arith, refl, refl, λ h k. NoPass-write_checkpoint _ r.ledger.state h k);
  }

  pub ask-Steps :
      (role : Role) (effort : String) (answer_only : Bool) (task extra : String)
      → Steps 2 (ask s role effort answer_only task extra)
  unfolding ask save_transcript
  ask-Steps role effort answer_only task extra = Steps-then 1 1 2 (omega arith) Steps-count_call (
      Steps-bind 1 0 1 (omega arith)
        (record {
          at = λ r.
              (call_with_retry-Steps role (message_for s role task extra r) effort answer_only).at
                r;
        })
        (λ answer. record { at = λ r. Quiet-refl r }))

  plan_attempts-Steps :
      (left : ℕ) (text error : String) → Steps (2 * left) (plan_attempts s left text error)
  unfolding plan_attempts
  plan_attempts-Steps zero text error =
      Steps-then 0 0 0 (omega arith) (Steps-note _) (Steps-pure 0 _)
  plan_attempts-Steps (suc left) text error =
      Steps-bind 2 (2 * left) (2 * suc left) (omega arith) (ask-Steps Role.plan _ true "" _)
        (λ answer.
          Steps-handle (2 * left) (parse_plan s.patterns answer) (λ a. Steps-pure (2 * left) a)
            (λ e.
              Steps-then 0 (2 * left) (2 * left) (omega arith) (Steps-note _)
                (plan_attempts-Steps left answer (retry_note s e answer))))

  pub plan-Steps : Steps 4 (plan s)
  unfolding plan
  plan-Steps = plan_attempts-Steps 2 "" ""

  manage_attempts-Steps :
      (left : ℕ) (error : String) → Steps (2 * left) (manage_attempts s left error)
  unfolding manage_attempts
  manage_attempts-Steps zero error = Steps-pure 0 none
  manage_attempts-Steps (suc left) error =
      Steps-bind 2 (2 * left) (2 * suc left) (omega arith)
        (record { at = λ r. (ask-Steps Role.manage s.config.effort_manage true "" _).at r })
        (λ answer.
          Steps-handle (2 * left) (parse_manage s.patterns answer)
            (λ a. Steps-pure (2 * left) (some a))
            (λ e.
              Steps-then 0 (2 * left) (2 * left) (omega arith) (Steps-note _)
                (manage_attempts-Steps left (retry_note s e answer))))

  manage-Steps : Steps 4 (manage s)
  unfolding manage
  manage-Steps = manage_attempts-Steps 2 ""

  fallback_decision-Steps : Steps 0 (fallback_decision s)
  unfolding fallback_decision
  fallback_decision-Steps = record {
    at = λ r.
        (Steps-if_some 0 (first_open s (advanced s r r.tasks))
            (λ t. Steps-then 0 0 0 (omega arith) (Steps-note _) (Steps-pure 0 _))
            (Steps-pure 0 none)).at
          r;
  }

  pub manage_or_fallback-Steps : Steps 4 (manage_or_fallback s)
  unfolding manage_or_fallback
  manage_or_fallback-Steps =
      Steps-bind 4 0 4 (omega arith) manage-Steps
        (λ answer. Steps-if_some 0 answer (λ d. Steps-pure 0 (some d)) fallback_decision-Steps)

  pub overrule_done-Steps : Steps 0 (overrule_done s)
  unfolding overrule_done write_tasks
  overrule_done-Steps = record {
    at = λ r.
        (Steps-if_some 0 (first_open s (advanced s r r.tasks))
            (λ t. Steps-then 0 0 0 (omega arith) (Steps-note _) (Steps-pure 0 _))
            (Steps-pure 0 none)).at
          _;
  }

  pub keep_notes-Steps : (report : String) → Steps 0 (keep_notes s report)
  unfolding keep_notes write_notes
  keep_notes-Steps report =
      Steps-if_some 0 (parse_worker_notes s.patterns report)
        (λ notes. Steps-on_ledger _ (λ l. refl)) (Steps-note _)

  checkpoint_progress-Steps : (cp : Checkpoint VerifierResult) → Steps 0 (checkpoint_progress s cp)
  unfolding checkpoint_progress emit
  checkpoint_progress-Steps cp = record {
    at = λ r. (refl, omega arith, endings_say r.events _ false _, refl, λ h k. k);
  }

  pub save_aloud-Steps :
      (phase : String) → Steps 0 (save_checkpoint s phase >>= checkpoint_progress s)
  save_aloud-Steps phase =
      Steps-bind 0 0 0 (omega arith) (save_checkpoint-Steps phase) checkpoint_progress-Steps
