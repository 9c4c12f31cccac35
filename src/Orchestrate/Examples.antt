-- ===== src/Orchestrate/Examples.antt =====
-- A job whose command passes when it is run the second time, with a model that answers in turn.
use privibe.Prelude.{ℕ, ◌+◌, none, some, [], ◌∷◌, eqb, ltb, if◌then◌else◌}
use privibe.Prelude.Int.{pos}
use privibe.Prelude.Exec.{ok, err}
use privibe.Ledger.Files.{Ledger}
use privibe.Orchestrate.Verifier.{VerifierResult, ProcessEnd}
use privibe.Orchestrate.Parse.{Patterns}
use privibe.Orchestrate.Run.{JobRecord, Setting}
use privibe.Orchestrate.Start.{run_orchestration}
use privibe.Orchestrate.Start.Ends.{Gives, run_orchestration-Gives}
use privibe.Prelude.{◌≡◌, refl, String, false, eq_iff, Option, ◌==◌}
use privibe.Str.{
  is_space, lstrip, rstrip, strip, ends_with, lstrip_by, rstrip_by, strip_by, is_in, first_chars,
}
use privibe.Ledger.{
  insert_by_number, checkpoints, latest_checkpoint, find_number, checkpoint, next_checkpoint_number,
}
use privibe.Orchestrate.Bundle.{Files}
use privibe.Orchestrate.Bundle.Back.{WritesBack}
use privibe.Orchestrate.Parse.{
  ManageAnswer, strip_fences, id_in, task_with_id, parse_task_lines, tasks_of, parse_next,
  parse_manage,
}
use privibe.Orchestrate.Parse.Accepted.{NoRepeat, Names, parse_manage-Names}
use privibe.Orchestrate.Run.{Run, checkpoint_of}
use privibe.Orchestrate.Start.{new_run, begin, phase_order}
use privibe.Orchestrate.Start.Resumed.{Returned, begin-Returned}

-- A line of the answer "1" is a task, and "go" is the value of a NEXT line.
abbrev patterns : Patterns
patterns = record {
  lower = λ text. text;
  quoted = λ text. text;
  splitlines = λ text. text ∷ [];
  task_line = λ line. some (record { id = 1; mark = none; text = "fix it" });
  section = λ name text. none;
  next_line = λ text. some (1, "1");
  next_number = λ value. some 1;
  notes_section = λ report. none;
}

-- The world counts the runs of the command and the calls of the model.
abbrev setting : Setting (ℕ × ℕ)
setting = record {
  job = record {
    goal = "fix it";
    files = [];
    scope = [];
    done_command = "make";
    max_rounds = some 3;
  };
  bundle = record { paths = []; contents = [] };
  config = record {
    max_rounds = 10;
    verifier_output_chars = 3000;
    timeout_text = "300";
    effort_plan = "low";
    effort_brainstorm = "medium";
    effort_manage = "low";
    effort_execute = "medium";
    effort_finalize = "medium";
  };
  cwd = "/";
  texts = record {
    plan = "plan";
    brainstorm = "think";
    manage = "manage";
    execute = λ task. task;
    finalize = "end";
  };
  patterns = patterns;
  files = record {
    read_current = λ path w. none;
    put_file = λ path content w. w;
    render_file = λ path content. content;
    render_changed_file = λ path old new. new;
  };
  call = λ role message effort answer_only w.
      (if eqb w.1 1 then err "ConnectionError: reset" else ok "1", (w.0, w.1 + 1));
  run_process = λ command w.
      (ProcessEnd.finished (some (pos (if ltb w.0 1 then 1 else 0))) "", (w.0 + 1, w.1));
  stamp = λ w. "2026-01-01 00:00";
}

abbrev empty_ledger : Ledger VerifierResult JobRecord
empty_ledger = record {
  root = "ledger";
  plan_chars = 4000;
  notes_chars = 8000;
  task = none;
  plan = none;
  notes = none;
  steer = none;
  tasks = none;
  job = none;
  snapshot = none;
  state = [];
  inflight = none;
  rounds_log = [];
  transcripts = [];
}

run_orchestration-Gives_example :
    Gives setting
      (begin setting none (new_run setting empty_ledger (0, 0)))
      "be quick"
      (run_orchestration setting none "be quick" empty_ledger (0, 0))
run_orchestration-Gives_example =
    run_orchestration-Gives setting none "be quick" empty_ledger (0, 0) tt

abbrev named : ManageAnswer
named = record {
  tasks = record { id = 1; text = "fix it"; done = false } ∷ [];
  next_id = some 1;
  done = false;
}

parses : parse_manage patterns "1" ≡ ok named
unfolding parse_manage strip_fences tasks_of parse_task_lines id_in parse_next task_with_id
    ends_with strip lstrip rstrip is_space strip_by lstrip_by rstrip_by is_in first_chars
parses = refl

parse_manage-Names_example : NoRepeat [] named.tasks × Names named
parse_manage-Names_example = parse_manage-Names patterns "1" named parses

-- Files as a function, with a job that lists one of them.
abbrev Disk : Type 0
Disk = String → Option String

abbrev on_disk : Files Disk
on_disk = record {
  read_current = λ path w. w path;
  put_file = λ path content w. λ q. if path == q then content else w q;
  render_file = λ path content. content;
  render_changed_file = λ path old new. new;
}

on_disk-WritesBack : WritesBack on_disk
on_disk-WritesBack = record {
  here = λ p c w. rw ((eq_iff p p).1 refl) refl;
  elsewhere = λ p q c w ne. rw ne refl;
}

abbrev disk_setting : Setting Disk
disk_setting = record {
  job = setting.job;
  bundle = record { paths = "a.py" ∷ []; contents = ("a.py", "old") ∷ [] };
  config = setting.config;
  cwd = "/";
  texts = setting.texts;
  patterns = patterns;
  files = on_disk;
  call = λ role message effort answer_only w. (ok "1", w);
  run_process = λ command w. (ProcessEnd.finished (some (pos 1)) "", w);
  stamp = λ w. "2026-01-01 00:00";
}

-- A run after its first round, with the file written.
abbrev saved : Run Disk
saved = record (new_run disk_setting empty_ledger (λ path. some "first")) {
  rounds = 1;
  calls = 4;
  done_keys = "fix it" ∷ [];
  last_task_key = some "fix it";
  ledger = record empty_ledger { notes = some "a note\n" };
}

abbrev later : Run Disk
later = record saved {
  rounds = 2;
  calls = 6;
  ledger = record empty_ledger { state = checkpoint_of disk_setting "round_end" saved ∷ [] };
  world = λ path. some "second";
}

abbrev both : Ledger VerifierResult JobRecord
both = record empty_ledger {
  state =
      checkpoint_of disk_setting "round_end" saved
      ∷ checkpoint_of disk_setting "round_end" later
      ∷ [];
}

begin-Returned_example :
    (back : Run Disk) × (begin disk_setting (some 1) (new_run disk_setting both (λ path. none))
      ≡ ok (3, back))
    × Returned disk_setting both.notes_chars saved (λ path. none) 1 back
unfolding checkpoint_of next_checkpoint_number latest_checkpoint checkpoints insert_by_number
    phase_order checkpoint find_number new_run
begin-Returned_example =
    begin-Returned disk_setting "round_end" saved 3 both (λ path. none)
      (checkpoint_of disk_setting "round_end" later) on_disk-WritesBack refl refl refl refl
