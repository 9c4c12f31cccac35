-- ===== src/Orchestrate/Start/Resumed.antt =====
-- Going back to an earlier checkpoint.
use privibe.Prelude.{
  ℕ, ◌≤◌, ◌≡◌, refl, ap, String, false, Option, none, some, List, [], ◌∷◌, inl, inr, Bool-cases,
  ltb, eqb, if◌then◌else◌, All, arith,
}
use privibe.Prelude.Exec.{ok}
use privibe.Str.{sorted, is_in}
use privibe.Ledger.{
  Checkpoint, TaskItem, latest_checkpoint, checkpoint, kept_through, drop_checkpoints_after,
}
use privibe.Ledger.Files.{Ledger, Inflight, log, write_notes, write_tasks, clear_inflight}
use privibe.Orchestrate.Verifier.{VerifierResult}
use privibe.Orchestrate.Bundle.{current_contents}
use privibe.Orchestrate.Bundle.Back.{WritesBack, restore_files-current}
use privibe.Orchestrate.Run.{JobRecord, Setting, Run, checkpoint_of, restore_run, emit, say}
use privibe.Orchestrate.Start.{
  new_run, go_back, note_inflight, noted, begin_at, resume_from, begin_on, log_lines, resume,
  phase_order, begin,
}
use Prim.Native.String.{◌++◌}
use privibe.Ledger.{cap_text}
use privibe.Ledger.Files.{read}

-- No checkpoint has a higher number.
abbrev pub NoneAfter : ℕ → List (Checkpoint VerifierResult) → Type 0
NoneAfter n cs = All (λ c. c.number ≤ n) cs

kept_through-NoneAfter :
    (n : ℕ) (cs : List (Checkpoint VerifierResult)) → NoneAfter n (kept_through n cs)
unfolding kept_through
kept_through-NoneAfter n [] = tt
kept_through-NoneAfter n (c ∷ cs) =
    let rest = kept_through-NoneAfter n cs in
    elim (Bool-cases (ltb n c.number)) [
      | inl above ↦ rw above rest
      | inr kept ↦ rw kept (ground arith, rest)
    ]

-- What a checkpoint keeps of a run, with the tasks, the notes and the unfinished worker that the ledger
-- shows.
pub record JobState : Type 0 where
  pub rounds : ℕ
  pub calls : ℕ
  pub verifier : Option VerifierResult
  pub last_report : String
  pub last_task_key : Option String
  pub done_keys : List String
  pub tasks : List TaskItem
  pub ledger_tasks : Option (List TaskItem)
  pub ledger_notes : Option String
  pub inflight : Option Inflight

module _ {W : Type 0} (s : Setting W) where
  abbrev pub job_state : Run W → JobState
  job_state r = record {
    rounds = r.rounds;
    calls = r.calls;
    verifier = r.verifier;
    last_report = r.last_report;
    last_task_key = r.last_task_key;
    done_keys = r.done_keys;
    tasks = r.tasks;
    ledger_tasks = r.ledger.tasks;
    ledger_notes = r.ledger.notes;
    inflight = r.ledger.inflight;
  }

  -- The state that a checkpoint of a run gives back, the notes as a ledger with this limit stores them.
  abbrev pub saved_state : ℕ → Run W → JobState
  saved_state notes_chars r = record (job_state r) {
    done_keys = sorted r.done_keys;
    ledger_tasks = some r.tasks;
    ledger_notes = some (cap_text (read r.ledger.notes) notes_chars ++ "\n");
    inflight = none;
  }

  -- `back` has the job's state of `saved` with the notes cut to their limit, each listed file reads as it did then and any other as it
  -- does now, and no later checkpoint is left.
  pub record Returned (notes_chars : ℕ) (saved : Run W) (now : W) (number : ℕ) (back : Run W)
      : Type 0 where
    pub state : job_state back ≡ saved_state notes_chars saved
    pub files :
        (path : String)
        → s.files.read_current path back.world
          ≡ s.files.read_current path (if is_in path s.bundle.paths then saved.world else now)
    pub none_after : NoneAfter number back.ledger.state

  log_lines-Returned :
      (chars : ℕ) (saved : Run W) (now : W) (number : ℕ) (lines : List String) (r : Run W)
      → Returned chars saved now number r
      → Returned chars saved now number (log_lines s lines r)
  unfolding log_lines
  log_lines-Returned chars saved now number [] r h = h
  log_lines-Returned chars saved now number (line ∷ lines) r h =
      log_lines-Returned chars saved now number lines _
        (unfold log in record { state = h.state; files = h.files; none_after = h.none_after })

  noted-state :
      (i : Option Inflight) (r : Run W)
      → r.ledger.inflight ≡ i
      → job_state (noted s i r).1 ≡ record (job_state r) { inflight = none }
  unfolding noted clear_inflight
  noted-state none r e = ap (λ j. record (job_state r) { inflight = j }) e
  noted-state (some i) r e = refl

  go_back-Returned :
      (chars : ℕ) (saved : Run W) (now : W) (cp : Checkpoint VerifierResult) (r : Run W)
      → WritesBack s.files
      → cp.files ≡ current_contents s.files s.bundle saved.world
      → job_state r ≡ saved_state chars saved
      → r.world ≡ now
      → Returned chars saved now cp.number (go_back s cp r).1
  unfolding go_back drop_checkpoints_after
  go_back-Returned chars saved now cp r laws kept state world = record {
    state = state;
    files =
        λ path. rw (kept, world) (restore_files-current s.files laws s.bundle saved.world now path);
    none_after = kept_through-NoneAfter cp.number r.ledger.state;
  }

  noted-world : (i : Option Inflight) (r : Run W) → (noted s i r).1.world ≡ r.world
  unfolding noted
  noted-world none r = refl
  noted-world (some i) r = refl

  resume-Returned :
      (phase : String) (saved run : Run W) (latest : Checkpoint VerifierResult)
      → WritesBack s.files
      → eqb (checkpoint_of s phase saved).number latest.number ≡ false
      → Returned run.ledger.notes_chars saved run.world
          (checkpoint_of s phase saved).number
          (resume s (checkpoint_of s phase saved) latest run)
  unfolding resume note_inflight restore_run checkpoint_of write_notes write_tasks
  resume-Returned phase saved run latest laws earlier =
      let cp = checkpoint_of s phase saved in
      let chars = run.ledger.notes_chars in
      let loaded = (restore_run s cp run).1 in
      let continued = (noted s loaded.ledger.inflight loaded).1 in
      rw (resume, earlier)
        (log_lines-Returned chars saved run.world cp.number _ _ (
          log_lines-Returned chars saved run.world cp.number _ (go_back s cp continued).1 (
            go_back-Returned chars saved run.world cp continued laws refl
              (noted-state loaded.ledger.inflight loaded refl)
              (noted-world loaded.ledger.inflight loaded))))

  -- A run that goes back to an earlier checkpoint, of a phase that the loop knows, begins there: it has
  -- the rounds, the calls, the verifier's result, the report, the tasks, the notes and the keys of
  -- the tasks that were done when the checkpoint was saved, the keys sorted and the notes stripped and cut
  -- to the limit of the ledger; every listed file reads as it did then, whatever happened since, and no
  -- other file is touched; no later checkpoint is left, and no worker is noted as unfinished. A content
  -- that was read of a file must be read back once it is written.
  pub begin-Returned :
      (phase : String) (saved : Run W) (phase_done : ℕ) (l : Ledger VerifierResult JobRecord)
      (now : W) (latest : Checkpoint VerifierResult)
      → WritesBack s.files
      → phase_order phase ≡ some phase_done
      → latest_checkpoint l.state ≡ some latest
      → checkpoint (checkpoint_of s phase saved).number l.state ≡ ok (checkpoint_of s phase saved)
      → eqb (checkpoint_of s phase saved).number latest.number ≡ false
      → (back : Run W) × (begin s (some (checkpoint_of s phase saved).number) (new_run s l now)
          ≡ ok (phase_done, back))
        × Returned l.notes_chars saved now (checkpoint_of s phase saved).number back
  unfolding begin begin_on resume_from checkpoint_of new_run begin_at say emit
  begin-Returned phase saved phase_done l now latest laws known found there earlier =
      let cp = checkpoint_of s phase saved in
      let r = resume s cp latest (new_run s l now) in
      let h = resume-Returned phase saved (new_run s l now) latest laws earlier in
      rw (found, there, resume_from, known)
        (
          _,
          refl,
          unfold say emit in record { state = h.state; files = h.files; none_after = h.none_after },
        )
