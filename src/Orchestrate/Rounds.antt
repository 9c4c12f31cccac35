-- ===== src/Orchestrate/Rounds.antt =====
-- manage, execute, verify, round after round: `_rounds` and what it calls in
-- privibe/core/orchestrate/loop.py.
pub mod Quiet
pub mod Parts
pub mod Resolve
pub mod Ends
pub mod Outcomes
pub mod Loop
use Prim.Native.Char.{code}
use Prim.Native.String.{◌++◌}
use Prim.Native.String
use privibe.Prelude.{
  ℕ, zero, suc, ◌+◌, ◌-◌, String, Bool, true, false, not, ◌||◌, ◌&&◌, Option, none, some, List, [],
  ◌∷◌, ◌++◌ as append, ◌==◌, ◌⊎◌, inl, inr, ltb, eqb, length, drop, if◌then◌else◌, same_text, map,
}
use privibe.Prelude.Exec.{Result, ok, err}
use privibe.Str.{strip_by, is_space, is_in, decimal, join, rstrip}
use privibe.Ledger.{TaskItem, Checkpoint}
use privibe.Ledger.Files.{write_notes, write_tasks, write_inflight, clear_inflight, log}
use privibe.Orchestrate.Verifier.{VerifierResult, passed, exit_text}
use privibe.Orchestrate.Bundle.{changed_files}
use privibe.Orchestrate.Parse.{ManageAnswer, next_task, parse_worker_notes}
use privibe.Orchestrate.Prompt.{Role, render_task}
use privibe.Orchestrate.Run.{
  OutcomeStatus, Outcome, Event, Setting, Run, M, pure, ◌>>=◌, ◌>>◌, handle, if_some, modify,
  on_ledger, note, emit, say, max_rounds, save_checkpoint,
}
use privibe.Orchestrate.Run.Calls.{ask, outcome, manage, verify}
use privibe.Str.{is_char_of}

-- `re.sub(r"\s+", " ", text)`; `inside` says that the character before was a space.
unfoldable pub one_space : Bool → String → String
unfolding is_space
one_space inside String.[] = ""
one_space inside (String.◌∷◌ c cs) =
    let rest = one_space (is_space (code c)) cs in
    if is_space (code c) then (if inside then rest else " " ++ rest) else String.◌∷◌ c rest

-- _PUNCT_EDGES
unfoldable pub is_edge : ℕ → Bool
is_edge = is_char_of " \t\r\n.,;:!?'\"`*_-"

abbrev pub passes : Option VerifierResult → Bool
passes none = false
passes (some result) = passed result

unfoldable pub resume_hint : String → ℕ → String
resume_hint ledger_dir checkpoint =
    "Resume the orchestration at "
    ++ (ledger_dir
        ++ (" from checkpoint "
            ++ (decimal checkpoint
                ++ (" (call orchestrate with resume_ledger and checkpoint; put what should "
                    ++ "change in direction)."))))

abbrev pub is_nil : List String → Bool
is_nil [] = true
is_nil (p ∷ ps) = false

abbrev pub is_none {ℓ} : {A : Type ℓ} → Option A → Bool
is_none none = true
is_none (some a) = false

module _ {W : Type 0} (s : Setting W) where
  unfoldable pub task_key : String → String
  unfolding one_space is_edge
  task_key text = s.patterns.lower (strip_by is_edge (one_space false text))

  -- `_verifier_progress`
  unfoldable pub verifier_progress : VerifierResult → String
  verifier_progress result =
      let lines : List String = s.patterns.splitlines (rstrip result.output) in
      let tail : List String = drop (length lines - 3) lines in
      let body : String = join "\n" (map (λ line. "  " ++ line) tail) in
      (if passed result then "✓" else "✕")
      ++ (" verifier exit "
          ++ (exit_text result.exit_code
              ++ ((if result.timed_out then " (timeout)" else "")
                  ++ (if body == "" then "" else "\n" ++ body))))

  -- `yield _checkpoint_progress(run, cp)`
  unfoldable pub checkpoint_progress : Checkpoint VerifierResult → M W (Unit {0})
  checkpoint_progress cp run =
      let place : String =
        if cp.phase == "round_end" then "round " ++ (decimal cp.rounds ++ " done") else cp.phase in
      emit
        (Event.progress ("◆ checkpoint " ++ (decimal cp.number ++ (" · " ++ place))) false
          (resume_hint run.ledger.root cp.number))
        run

  -- `yield run.outcome(status, detail)`
  unfoldable pub finish : OutcomeStatus → String → M W Outcome
  finish status detail = do x ← outcome s status detail; emit (Event.ended x); pure x

  unfoldable pub verify_aloud : String → M W VerifierResult
  verify_aloud title = do
    say title false
    result ← verify s
    say (verifier_progress result) false
    pure result

  -- What the verifier says after the finalizer.
  unfoldable pub judge_finalizer : OutcomeStatus → String → M W Outcome
  judge_finalizer status reason = verify_aloud "verifier · finalizer" >>= λ result.
      if passed result
      then finish OutcomeStatus.done ("finalizer completed the job: " ++ reason)
      else finish status (reason ++ "; the finalizer ran and the verifier still fails")

  unfoldable pub run_finalizer : OutcomeStatus → String → M W Outcome
  run_finalizer status reason = do
    note ("finalizer: " ++ reason)
    say "finalizer" true
    report ←
        ask s Role.finalize s.config.effort_finalize false ""
          ("\n\nWhy the loop ended: " ++ (reason ++ ".\n"))
    modify (λ run. record run { last_report = report })
    (if s.job.done_command == ""
        then finish status (reason ++ "; the finalizer ran, nothing verified it")
        else judge_finalizer status reason)

  -- `_finalize`
  unfoldable pub finalize : OutcomeStatus → String → M W Outcome
  finalize status reason run =
      if passes run.verifier
      then (note ("loop ended (" ++ (reason ++ ") but the verifier passes; done"))
            >> finish OutcomeStatus.done ("verifier passes: " ++ reason))
          run
      else run_finalizer status reason run

  -- The tasks with those that a worker has run counted as done, and the first one that is open.
  unfoldable pub advanced : Run W → List TaskItem → List TaskItem
  advanced run [] = []
  advanced run (t ∷ ts) =
      record t { done = t.done || is_in (task_key t.text) run.done_keys } ∷ advanced run ts

  unfoldable pub first_open : List TaskItem → Option TaskItem
  first_open [] = none
  first_open (t ∷ ts) = let rest = first_open ts in if t.done then rest else some t

  unfoldable pub overrule_done : M W (Option TaskItem)
  overrule_done run =
      let tasks = advanced run run.tasks in
      let stepped = record run {
        last_report = "";
        tasks = tasks;
        ledger = write_tasks tasks run.ledger;
      } in
      if_some (first_open tasks)
        (λ t.
          note ("DONE overruled; running the first open task " ++ decimal t.id) >> pure (some t))
        (pure none) stepped

  unfoldable pub fallback_decision : M W (Option ManageAnswer)
  fallback_decision run =
      let tasks = advanced run run.tasks in
      if_some (first_open tasks)
        (λ t.
          note ("manager unparseable; taking the first open task " ++ decimal t.id)
          >> pure (some (record { tasks = tasks; next_id = some t.id; done = false })))
        (pure none) run

  -- The outcome of a DONE that stands.
  unfoldable pub done_outcome : M W (Option Outcome)
  done_outcome run =
      if not (s.job.done_command == "")
      then (if passes run.verifier
          then (outcome s OutcomeStatus.done "" >>= λ x. pure (some x)) run
          else (note "manager said DONE but the verifier fails; continuing" >> pure none) run)
      else if is_none run.last_task_key && is_nil (changed_files s.files s.bundle run.world)
      then (note "manager said DONE before any work was done; overruled" >> pure none) run
      else (outcome s OutcomeStatus.done_unverified "manager declared done; no verifier" >>= λ x.
            pure (some x))
          run

  -- A verifier that has not run yet runs before a DONE is judged.
  unfoldable pub check_first : String → M W (Unit {0})
  check_first tag run =
      if not (s.job.done_command == "") && is_none run.verifier
      then (verify_aloud ("verifier · " ++ (tag ++ " (manager declared done)")) >>= λ _. pure tt)
          run
      else (tt, run)

  unfoldable pub or_overrule : Option Outcome → M W (Outcome ⊎ Option TaskItem)
  or_overrule accepted = if_some accepted (λ x. pure (inl x)) (overrule_done >>= λ t. pure (inr t))

  -- The manager said DONE: the outcome that ends the job, or the task to run instead, if there is one.
  unfoldable pub resolve_done : String → M W (Outcome ⊎ Option TaskItem)
  resolve_done tag = do check_first tag; accepted ← done_outcome; or_overrule accepted

  -- `_stall_reason`, and the task where there is no reason.
  unfoldable pub task_to_run : Option TaskItem → Bool → Run W → Result String TaskItem
  task_to_run none overruled run = err (
      if overruled
      then "manager said DONE, nothing confirms it, and no other task is left"
      else "manager named no task")
  task_to_run (some t) overruled run =
      if same_text (some (task_key t.text)) run.last_task_key
      then err ("manager reissued the same task: " ++ t.text)
      else ok t

  -- Whether the verifier passes after a worker.
  unfoldable pub verify_after : String → M W Bool
  verify_after tag =
      if s.job.done_command == ""
      then pure false
      else (verify_aloud ("verifier · " ++ tag) >>= λ result. pure (passed result))

  unfoldable pub end_round : Bool → M W (Option Outcome)
  end_round true = finish OutcomeStatus.done "verifier passes after a worker" >>= λ x. pure (some x)
  end_round false = do cp ← save_checkpoint s "round_end"; checkpoint_progress cp; pure none

  -- The state when a worker begins.
  unfoldable pub begin_task : TaskItem → Run W → Run W
  begin_task task run =
      let key = task_key task.text in
      record run {
        last_task_key = some key;
        done_keys =
            if is_in key run.done_keys then run.done_keys else append run.done_keys (key ∷ []);
        ledger = write_inflight run.rounds task.id task.text run.ledger;
      }

  unfoldable pub keep_notes : String → M W (Unit {0})
  keep_notes report =
      if_some (parse_worker_notes s.patterns report) (λ notes. on_ledger (write_notes notes))
        (note "worker gave no '## Notes' section; notes kept")

  -- The worker's part of a round and the verifier's; `none` lets the next round begin.
  unfoldable pub execute : String → TaskItem → M W (Option Outcome)
  execute tag task = do
    modify (begin_task task)
    say ("worker · " ++ (tag ++ (" · task " ++ (decimal task.id ++ (": " ++ task.text))))) true
    report ← ask s Role.execute s.config.effort_execute false (render_task task) ""
    modify (λ run. record run { last_report = report })
    keep_notes report
    good ← verify_after tag
    on_ledger clear_inflight
    end_round good

  -- The round after the manager's answer.
  unfoldable pub go_on : String → Bool → Outcome ⊎ Option TaskItem → M W (Option Outcome)
  go_on tag overruled (inl x) run = (emit (Event.ended x) >> pure (some x)) run
  go_on tag overruled (inr task) run =
      handle (task_to_run task overruled run) (execute tag)
        (λ reason. finalize OutcomeStatus.stalled reason >>= λ x. pure (some x)) run

  unfoldable pub decide : String → ManageAnswer → M W (Option Outcome)
  decide tag decision = do
    modify (λ run. record run {
      tasks = decision.tasks;
      ledger = write_tasks decision.tasks run.ledger;
    })
    resolved ← (if decision.done then resolve_done tag else pure (inr (next_task decision)))
    go_on tag decision.done resolved

  -- `await run.manage() or _fallback_decision(run)`
  unfoldable pub manage_or_fallback : M W (Option ManageAnswer)
  manage_or_fallback = manage s >>= λ answer. if_some answer (λ d. pure (some d)) fallback_decision

  unfoldable pub one_round : M W (Option Outcome)
  one_round start =
      let run = record start { rounds = start.rounds + 1 } in
      let tag : String = "round " ++ (decimal run.rounds ++ ("/" ++ decimal (max_rounds s))) in
      (do
        say ("manager · " ++ tag) true
        decision ← manage_or_fallback
        if_some decision (decide tag) (
            finalize OutcomeStatus.stalled
              "manager's task list could not be parsed and no task is left"
            >>= λ x. pure (some x)))
        run

  -- `while run.rounds < run.max_rounds`, on fuel; `none` means that the fuel ran out.
  unfoldable pub rounds_loop : ℕ → M W (Option Outcome)
  rounds_loop zero run = (none, run)
  rounds_loop (suc fuel) run =
      if ltb run.rounds (max_rounds s)
      then (one_round >>= λ ended. if_some ended (λ x. pure (some x)) (rounds_loop fuel)) run
      else (finalize OutcomeStatus.rounds_exhausted (decimal (max_rounds s) ++ " rounds used")
            >>= λ x. pure (some x))
          run
