-- ===== src/Orchestrate/Run/Calls.antt =====
-- The calls of a run and their retries, and the job's command: `_Run` of
-- privibe/core/orchestrate/loop.py.
use Prim.Native.String.{◌++◌}
use privibe.Prelude.{
  ℕ, zero, suc, ◌+◌, ◌-◌, String, Bool, true, false, Option, none, some, [], ◌∷◌, ◌==◌, eqb,
  if◌then◌else◌,
}
use privibe.Prelude.Exec.{Result}
use privibe.Str.{len, strip, first_chars, decimal}
use privibe.Ledger.Files.{read, log, save_transcript}
use privibe.Orchestrate.Verifier.{VerifierResult, verifier_result, exit_text}
use privibe.Orchestrate.Bundle.{changed_files, render_changed}
use privibe.Orchestrate.Parse.{PlanAnswer, ManageAnswer, parse_plan, parse_manage}
use privibe.Orchestrate.Prompt.{Role, role_value, role_text, build_tail, build_message}
use privibe.Orchestrate.Run.{
  Setting, Run, OutcomeStatus, status_value, Outcome, M, pure, ◌>>=◌, ◌>>◌, modify, note, is_last,
  handle, max_rounds,
}

module _ {W : Type 0} (s : Setting W) where
  unfoldable pub plan_budget_text : String
  plan_budget_text =
      "\n\nBudget: the harness runs "
      ++ (decimal (max_rounds s)
          ++ (" rounds, one worker task per round. Plan at most "
              ++ (decimal (if eqb ((max_rounds s) - 1) 0 then 1 else (max_rounds s) - 1)
                  ++ (" tasks, so the last round is left for the check. "
                      ++ "Merge small steps into one task.\n"))))

  unfoldable pub rounds_left_text : ℕ → String
  rounds_left_text rounds =
      "\n\nBudget: round "
      ++ (decimal rounds
          ++ (" of "
              ++ (decimal (max_rounds s)
                  ++ (", "
                      ++ (decimal ((max_rounds s) - rounds)
                          ++ (" left after this one. Say DONE only when the work is finished; a DONE "
                              ++ "that the verifier rejects still spends a round.\n"))))))

  unfoldable pub call_model : Role → String → String → Bool → M W (Result String String)
  call_model role message effort answer_only run =
      let (answer, w) = s.call role message effort answer_only run.world in
      (answer, record run { world = w })

  -- `left` attempts remain; a failure that is retried counts as one more call.
  unfoldable pub call_attempts : ℕ → Role → String → String → Bool → M W String
  call_attempts zero role message effort answer_only = pure ""
  call_attempts (suc left) role message effort answer_only =
      call_model role message effort answer_only >>= λ answer. handle answer pure (λ e. do
        note (
            role_value role
            ++ (" call failed ("
                ++ (e ++ (if is_last left then "); empty answer" else "); retrying once"))))
        modify (λ run. if is_last left then run else record run { calls = run.calls + 1 })
        call_attempts left role message effort answer_only)

  -- `1 + _CALL_RETRIES` attempts.
  unfoldable pub call_with_retry : Role → String → String → Bool → M W String
  call_with_retry = call_attempts 2

  abbrev wants_report : Role → Bool
  wants_report Role.manage = true
  wants_report Role.finalize = true
  wants_report _ = false

  unfoldable pub message_for : Role → String → String → Run W → String
  message_for role task extra run = build_message run.head (
      build_tail (record {
        plan = read run.ledger.plan;
        notes = read run.ledger.notes;
        tasks = run.tasks;
        rendered_changed = render_changed s.files s.bundle run.world;
        verifier = run.verifier;
        last_report = if wants_report role then run.last_report else "";
        report_chars = 4000;
        role_text = role_text s.texts role task ++ extra;
        direction = read run.ledger.steer;
      }))

  -- `f"{n:03d}"`
  abbrev padded : ℕ → String
  padded n = let digits : String = decimal n in first_chars (3 - len digits) "000" ++ digits

  unfoldable pub ask : Role → String → Bool → String → String → M W String
  ask role effort answer_only task extra = do
    modify (λ run. record run { calls = run.calls + 1 })
    answer ← λ run. call_with_retry role (message_for role task extra run) effort answer_only run
    λ run. (
      answer,
      record run {
        ledger = save_transcript (padded run.calls ++ ("-" ++ role_value role)) answer run.ledger;
      },
    )

  unfoldable pub outcome : OutcomeStatus → String → M W Outcome
  outcome status detail run =
      let line : String =
        "end " ++ (status_value status ++ (if detail == "" then "" else ": " ++ detail)) in
      (
        record {
          status = status;
          rounds = run.rounds;
          calls = run.calls;
          verifier = run.verifier;
          changed_files = changed_files s.files s.bundle run.world;
          ledger_dir = run.ledger.root;
          detail = detail;
          checkpoint = run.last_checkpoint;
        },
        record run { ledger = log line run.ledger },
      )

  -- `_retry_note`
  unfoldable pub retry_note : String → String → String
  retry_note error previous =
      "\n\nYour previous answer could not be parsed: "
      ++ (error
          ++ (". Answer again in exactly the shape above.\nPrevious answer:\n"
              ++ first_chars 2000 (strip previous)))

  abbrev whole_job_task : String
  whole_job_task = "Do the whole task described above, every edit it needs."

  -- One answer of the manager, parsed, and a second one if the first cannot be.
  unfoldable pub plan_attempts : ℕ → String → String → M W PlanAnswer
  plan_attempts zero text error = do
    note "plan unparseable; falling back to one task for the whole job"
    pure (record {
      plan = if strip text == "" then strip s.job.goal else strip text;
      tasks = record { id = 1; text = whole_job_task; done = false } ∷ [];
    })
  plan_attempts (suc left) previous error = do
    text ← ask Role.plan s.config.effort_plan true "" (plan_budget_text ++ error)
    handle (parse_plan s.patterns text) pure
        (λ e. do note ("plan parse error: " ++ e); plan_attempts left text (retry_note e text))

  -- `1 + _PARSE_RETRIES` attempts.
  unfoldable pub plan : M W PlanAnswer
  plan = plan_attempts 2 "" ""

  unfoldable pub manage_attempts : ℕ → String → M W (Option ManageAnswer)
  manage_attempts zero error = pure none
  manage_attempts (suc left) error = do
    text ← λ run.
        ask Role.manage s.config.effort_manage true "" (rounds_left_text run.rounds ++ error) run
    handle (parse_manage s.patterns text) (λ answer. pure (some answer))
        (λ e. do note ("manage parse error: " ++ e); manage_attempts left (retry_note e text))

  unfoldable pub manage : M W (Option ManageAnswer)
  manage = manage_attempts 2 ""

  unfoldable pub verify : M W VerifierResult
  verify run =
      let (end, w) = s.run_process s.job.done_command run.world in
      let result = verifier_result s.config.timeout_text s.config.verifier_output_chars end in
      let suffix : String = if result.timed_out then " (timeout)" else "" in
      (
        result,
        record run {
          world = w;
          verifier = some result;
          ledger = log ("verifier exit " ++ (exit_text result.exit_code ++ suffix)) run.ledger;
        },
      )
