-- ===== src/Orchestrate/Start.antt =====
-- A run from its start, or from a checkpoint: `run_orchestration` and `_resume` of
-- privibe/core/orchestrate/loop.py.
pub mod Begun
pub mod Ends
pub mod Resumed
use Prim.Native.String.{◌++◌}
use privibe.Prelude.{
  ℕ, zero, suc, ◌+◌, ◌-◌, String, Bool, true, false, Option, none, some, List, [], ◌∷◌, ◌==◌, eqb,
  ltb, length, if◌then◌else◌,
}
use privibe.Prelude.Exec.{Result, ok, err}
use privibe.Str.{strip, decimal, join}
use privibe.Ledger.{
  Checkpoint, LedgerStateError, latest_checkpoint, checkpoint, drop_checkpoints_after,
}
use privibe.Ledger.Files.{
  Ledger, Inflight, write_task, write_plan, write_notes, write_tasks, write_job, write_snapshot,
  clear_inflight, append_steer, log,
}
use privibe.Orchestrate.Verifier.{VerifierResult}
use privibe.Orchestrate.Bundle.{render_frozen, restore_files}
use privibe.Orchestrate.Prompt.{Role, build_head}
use privibe.Orchestrate.Run.{
  JobRecord, Outcome, Event, Setting, Run, M, pure, ◌>>=◌, ◌>>◌, modify, on_ledger, note, emit, say,
  max_rounds, save_checkpoint, restore_run,
}
use privibe.Orchestrate.Run.Calls.{ask, plan}
use privibe.Orchestrate.Rounds.{checkpoint_progress, rounds_loop}

pub data StartError : Type 0 where
  no_resume : String → StartError  -- no checkpoint to resume from
  ledger_state : LedgerStateError → StartError
  unknown_phase : String → StartError  -- the KeyError of _PHASE_ORDER

-- _PHASE_ORDER
unfoldable pub phase_order : String → Option ℕ
phase_order phase =
    if phase == "planned"
    then some 1
    else if phase == "brainstormed"
    then some 2
    else if phase == "round_end"
    then some 3
    else none

-- A list of numbers as Python shows it.
abbrev shown_numbers : List ℕ → List String
shown_numbers [] = []
shown_numbers (n ∷ ns) = decimal n ∷ shown_numbers ns

module _ {W : Type 0} (s : Setting W) where
  -- A `_Run` as it is built, on a ledger and in a world.
  unfoldable pub new_run : Ledger VerifierResult JobRecord → W → Run W
  new_run l w = record {
    ledger = l;
    head = "";
    tasks = [];
    verifier = none;
    last_report = "";
    last_task_key = none;
    done_keys = [];
    calls = 0;
    rounds = 0;
    last_checkpoint = none;
    world = w;
    events = [];
  }

  unfoldable pub job_record : JobRecord
  unfolding max_rounds
  job_record = record {
    goal = s.job.goal;
    files = s.job.files;
    scope = s.job.scope;
    done_command = s.job.done_command;
    max_rounds = max_rounds s;
    cwd = s.cwd;
  }

  unfoldable pub start_fresh : Run W → Run W
  start_fresh run = record run {
    ledger =
        write_task s.job.goal
          (write_snapshot s.bundle.paths s.bundle.contents (write_job job_record run.ledger));
  }

  -- Back to an earlier boundary: the listed files, and no later checkpoint. With the line for the log.
  unfoldable pub go_back : Checkpoint VerifierResult → Run W → String × Run W
  unfolding restore_files drop_checkpoints_after
  go_back target run =
      let (restored, w) = restore_files s.files s.bundle target.files run.world in
      let (dropped, kept) = drop_checkpoints_after target.number run.ledger.state in
      let l = run.ledger in
      (
        "went back to checkpoint "
            ++ (decimal target.number
                ++ (": restored "
                    ++ (decimal (length restored)
                        ++ (" listed file(s), dropped checkpoints ["
                            ++ (join ", " (shown_numbers dropped)
                                ++ ("]; transcripts after call "
                                    ++ (decimal target.calls ++ " will be overwritten"))))))),
        record run { world = w; ledger = record l { state = kept } },
      )

  abbrev inflight_line : Inflight → String
  inflight_line i =
      "a worker was running task "
      ++ (decimal i.id
          ++ (" in round "
              ++ (decimal i.round ++ " when the run stopped; its edits stay in the tree")))

  -- The step of `_resume` on an unfinished worker.
  unfoldable pub noted : Option Inflight → Run W → List String × Run W
  noted none run = ([], run)
  noted (some i) run = (inflight_line i ∷ [], record run { ledger = clear_inflight run.ledger })

  unfoldable pub note_inflight : Run W → List String × Run W
  unfolding noted
  note_inflight run = noted run.ledger.inflight run

  unfoldable pub log_lines : List String → Run W → Run W
  log_lines [] run = run
  log_lines (line ∷ lines) run = log_lines lines (record run { ledger = log line run.ledger })

  -- `_resume`, and the lines that it returns in the log.
  unfoldable pub resume : Checkpoint VerifierResult → Checkpoint VerifierResult → Run W → Run W
  resume target latest run =
      let line : String =
        "resume from checkpoint " ++ (decimal target.number ++ (" (" ++ (target.phase ++ ")"))) in
      let (lines, restored) = note_inflight (restore_run s target run).1 in
      let (back_line, back) = go_back target restored in
      if eqb target.number latest.number
      then log_lines (line ∷ lines) restored
      else log_lines (back_line ∷ []) (log_lines (line ∷ lines) back)

  -- The phase that is done, and the run.
  unfoldable pub begin_at :
      Option ℕ
      → Checkpoint VerifierResult
      → Checkpoint VerifierResult
      → Run W
      → Result StartError (ℕ × Run W)
  begin_at none cp latest run = err (unknown_phase cp.phase)
  begin_at (some phase) cp latest run =
      let line : String =
        "resumed from checkpoint "
        ++ (decimal cp.number
            ++ (" ("
                ++ (cp.phase
                    ++ (", round "
                        ++ (decimal cp.rounds ++ ("/" ++ (decimal (max_rounds s) ++ ")"))))))) in
      ok (phase, (say line false (resume cp latest run)).1)

  unfoldable pub resume_from :
      Result LedgerStateError (Checkpoint VerifierResult)
      → Checkpoint VerifierResult
      → Run W
      → Result StartError (ℕ × Run W)
  resume_from (err e) latest run = err (ledger_state e)
  resume_from (ok cp) latest run = begin_at (phase_order cp.phase) cp latest run

  -- From the latest checkpoint, if there is one, and the number that the caller asks for.
  unfoldable pub begin_on :
      Option (Checkpoint VerifierResult) → Option ℕ → Run W → Result StartError (ℕ × Run W)
  begin_on none none run = ok (0, start_fresh run)
  begin_on none (some n) run = err (no_resume run.ledger.root)
  begin_on (some latest) none run = resume_from (ok latest) latest run
  begin_on (some latest) (some n) run = resume_from (checkpoint n run.ledger.state) latest run

  unfoldable pub begin : Option ℕ → Run W → Result StartError (ℕ × Run W)
  begin wanted run = begin_on (latest_checkpoint run.ledger.state) wanted run

  -- The direction of the user, and the head of every message.
  unfoldable pub prepare : String → Run W → Run W
  prepare direction run =
      let steered : Run W = if strip direction == "" then run else record run {
        ledger =
            log "direction from the user added to steer.md"
              (append_steer (s.stamp run.world) direction run.ledger);
      } in
      record steered {
        head =
            build_head s.job.goal s.job.scope s.job.done_command (render_frozen s.files s.bundle);
      }

  unfoldable pub plan_phase : M W (Unit {0})
  plan_phase = do
    say "manager · plan" true
    answer ← plan s
    modify (λ run. record run {
      tasks = answer.tasks;
      ledger =
          log ("plan written, " ++ (decimal (length answer.tasks) ++ " seed tasks"))
            (write_tasks answer.tasks (write_plan answer.plan run.ledger));
    })
    cp ← save_checkpoint s "planned"
    checkpoint_progress s cp

  unfoldable pub brainstorm_phase : M W (Unit {0})
  brainstorm_phase = do
    say "brainstorm" true
    notes ← ask s Role.brainstorm s.config.effort_brainstorm true "" ""
    on_ledger (write_notes notes)
    note "brainstorm written to notes"
    cp ← save_checkpoint s "brainstormed"
    checkpoint_progress s cp

  -- The phases that the checkpoint does not cover, and the rounds; each round raises the counter, so
  -- one more than the rounds allowed is fuel enough.
  unfoldable pub phases : ℕ → M W (Option Outcome)
  phases phase_done = do
    (if ltb phase_done 1 then plan_phase else pure tt)
    (if ltb phase_done 2 then brainstorm_phase else pure tt)
    rounds_loop s (max_rounds s + 1)

  unfoldable pub run_from :
      String → Result StartError (ℕ × Run W) → Result StartError (Option Outcome × Run W)
  run_from direction (err e) = err e
  run_from direction (ok (phase_done, run)) = ok (phases phase_done (prepare direction run))

  unfoldable pub run_orchestration :
      Option ℕ
      → String
      → Ledger VerifierResult JobRecord
      → W
      → Result StartError (Option Outcome × Run W)
  run_orchestration wanted direction l w = run_from direction (begin wanted (new_run l w))
