-- ===== src/Orchestrate/Run.antt =====
-- One run of the loop and what it may do: `_Run` of privibe/core/orchestrate/loop.py.
pub mod Calls
use Prim.Native.String.{◌++◌}
use privibe.Prelude.{
  ℕ, zero, suc, ◌+◌, ◌-◌, String, Bool, true, false, Option, none, some, List, [], ◌∷◌,
  ◌++◌ as append, ◌==◌, eqb, if◌then◌else◌,
}
use privibe.Prelude.Exec.{Result, ok, err}
use privibe.Str.{len, strip, first_chars, decimal, sorted}
use privibe.Ledger.{TaskItem, Checkpoint, next_checkpoint_number, write_checkpoint}
use privibe.Ledger.Files.{Ledger, read, write_notes, write_tasks, log, save_transcript}
use privibe.Orchestrate.Verifier.{VerifierResult, ProcessEnd, verifier_result, exit_text}
use privibe.Orchestrate.Bundle.{Bundle, Files, changed_files, current_contents, render_changed}
use privibe.Orchestrate.Parse.{Patterns, PlanAnswer, ManageAnswer, parse_plan, parse_manage}
use privibe.Orchestrate.Prompt.{Role, role_value, RoleTexts, role_text, build_tail, build_message}

pub record JobSpec : Type 0 where
  pub goal : String
  pub files : List String
  pub scope : List String
  pub done_command : String
  pub max_rounds : Option ℕ

-- job.json
pub record JobRecord : Type 0 where
  pub goal : String
  pub files : List String
  pub scope : List String
  pub done_command : String
  pub max_rounds : ℕ
  pub cwd : String

pub data OutcomeStatus : Type 0 where
  done done_unverified rounds_exhausted stalled cancelled : OutcomeStatus

abbrev pub status_value : OutcomeStatus → String
status_value OutcomeStatus.done = "done"
status_value OutcomeStatus.done_unverified = "done_unverified"
status_value OutcomeStatus.rounds_exhausted = "rounds_exhausted"
status_value OutcomeStatus.stalled = "stalled"
status_value OutcomeStatus.cancelled = "cancelled"

pub record Outcome : Type 0 where
  pub status : OutcomeStatus
  pub rounds : ℕ
  pub calls : ℕ
  pub verifier : Option VerifierResult
  pub changed_files : List String
  pub ledger_dir : String
  pub detail : String
  pub checkpoint : Option ℕ

pub record OrchestrateConfig : Type 0 where
  pub max_rounds : ℕ
  pub verifier_output_chars : ℕ
  pub timeout_text : String  -- verifier_timeout_s, as `:g` writes it
  pub effort_plan : String
  pub effort_brainstorm : String
  pub effort_manage : String
  pub effort_execute : String
  pub effort_finalize : String

-- What the loop yields: progress with its section flag and its resume hint, or an outcome.
pub data Event : Type 0 where
  progress : String → Bool → String → Event
  ended : Outcome → Event

-- The job, what the run is given, and the world outside: the model, which answers or raises, the
-- shell, the files and the time.
pub record Setting (W : Type 0) : Type 0 where
  pub job : JobSpec
  pub bundle : Bundle
  pub config : OrchestrateConfig
  pub cwd : String
  pub texts : RoleTexts
  pub patterns : Patterns
  pub files : Files W
  pub call : Role → String → String → Bool → W → Result String String × W
  pub run_process : String → W → ProcessEnd × W
  pub stamp : W → String

pub record Run (W : Type 0) : Type 0 where
  pub ledger : Ledger VerifierResult JobRecord
  pub head : String
  pub tasks : List TaskItem
  pub verifier : Option VerifierResult
  pub last_report : String
  pub last_task_key : Option String
  pub done_keys : List String  -- a set
  pub calls : ℕ
  pub rounds : ℕ
  pub last_checkpoint : Option ℕ
  pub world : W
  pub events : List Event  -- yielded so far

abbrev pub M : Type 0 → Type 0 → Type 0
M W A = Run W → A × Run W

unfoldable pub pure : {W A : Type 0} → A → M W A
pure a run = (a, run)

infixl 5 ◌>>=◌ ◌>>◌
unfoldable pub ◌>>=◌ : {W A B : Type 0} → M W A → (A → M W B) → M W B
◌>>=◌ m f run = let (a, run') = m run in f a run'

unfoldable pub ◌>>◌ : {W B : Type 0} → M W (Unit {0}) → M W B → M W B
unfolding ◌>>=◌
m >> k = m >>= λ _. k

unfoldable pub modify : {W : Type 0} → (Run W → Run W) → M W (Unit {0})
modify f run = (tt, f run)

unfoldable pub on_ledger :
    {W : Type 0}
    → (Ledger VerifierResult JobRecord → Ledger VerifierResult JobRecord)
    → M W (Unit {0})
on_ledger f run = (tt, record run { ledger = f run.ledger })

unfoldable pub note : {W : Type 0} → String → M W (Unit {0})
unfolding on_ledger
note event = on_ledger (log event)

unfoldable pub emit : {W : Type 0} → Event → M W (Unit {0})
emit event run = (tt, record run { events = append run.events (event ∷ []) })

-- `yield Progress(message, section)`
unfoldable pub say : {W : Type 0} → String → Bool → M W (Unit {0})
unfolding emit
say message section = emit (Event.progress message section "")

-- No attempt remains.
abbrev pub is_last : ℕ → Bool
is_last zero = true
is_last (suc left) = false

-- `try`, with what is done next and the handler of the error.
unfoldable pub handle : {A B : Type 0} → Result String A → (A → B) → (String → B) → B
handle (ok a) next handler = next a
handle (err e) next handler = handler e

-- A test for `None`.
unfoldable pub if_some : {A B : Type 0} → Option A → (A → B) → B → B
if_some none next instead = instead
if_some (some a) next instead = next a

module _ {W : Type 0} (s : Setting W) where
  -- `self.job.max_rounds or self.config.max_rounds`
  unfoldable pub max_rounds : ℕ
  max_rounds = elim s.job.max_rounds [
    | none ↦ s.config.max_rounds
    | some zero ↦ s.config.max_rounds
    | some (suc n) ↦ suc n
  ]

  unfoldable pub checkpoint_of : String → Run W → Checkpoint VerifierResult
  checkpoint_of phase run = record {
    number = next_checkpoint_number run.ledger.state;
    phase = phase;
    rounds = run.rounds;
    calls = run.calls;
    verifier = run.verifier;
    last_report = run.last_report;
    last_task_key = run.last_task_key;
    done_keys = sorted run.done_keys;
    tasks = run.tasks;
    notes = read run.ledger.notes;
    files = current_contents s.files s.bundle run.world;
  }

  unfoldable pub save_checkpoint : String → M W (Checkpoint VerifierResult)
  save_checkpoint phase run =
      let cp = checkpoint_of phase run in
      let line : String =
        "checkpoint "
        ++ (decimal cp.number ++ (" (" ++ (phase ++ (", round " ++ (decimal cp.rounds ++ ")"))))) in
      let l = run.ledger in
      (
        cp,
        record run {
          ledger = log line (record l { state = write_checkpoint cp l.state });
          last_checkpoint = some cp.number;
        },
      )

  -- `restore`
  unfoldable pub restore_run : Checkpoint VerifierResult → M W (Unit {0})
  restore_run cp run = (
    tt,
    record run {
      rounds = cp.rounds;
      calls = cp.calls;
      verifier = cp.verifier;
      last_report = cp.last_report;
      last_task_key = cp.last_task_key;
      done_keys = cp.done_keys;
      tasks = cp.tasks;
      last_checkpoint = some cp.number;
      ledger = write_notes cp.notes (write_tasks cp.tasks run.ledger);
    },
  )
