-- ===== src/Ledger/Files.antt =====
-- The files of the ledger that a run writes and reads: the methods of `Ledger` in
-- privibe/core/orchestrate/ledger.py. A JSON file is what it stores, and a write replaces a file whole.
use Prim.Native.String.{◌++◌}
use privibe.Prelude.{
  ℕ, String, Option, none, some, List, [], ◌∷◌, ◌++◌ as append, ◌==◌, if◌then◌else◌,
}
use privibe.Str.{strip}
use privibe.Ledger.{Checkpoint, TaskItem, cap_text}

-- inflight.json
pub record Inflight : Type 0 where
  pub round : ℕ
  pub id : ℕ
  pub text : String

-- snapshot.json
pub record Snapshot : Type 0 where
  pub paths : List String
  pub contents : List (String × String)

-- `V` is a verifier's run, `J` the record of the job.
pub record Ledger (V J : Type 0) : Type 0 where
  pub root : String
  pub plan_chars : ℕ
  pub notes_chars : ℕ
  pub task : Option String
  pub plan : Option String
  pub notes : Option String
  pub steer : Option String
  pub tasks : Option (List TaskItem)
  pub job : Option J
  pub snapshot : Option Snapshot
  pub state : List (Checkpoint V)
  pub inflight : Option Inflight
  pub rounds_log : List String  -- without the time of each line
  pub transcripts : List (String × String)

-- `_read`
unfoldable pub read : Option String → String
read none = ""
read (some text) = strip text

unfoldable pub save_in : String → String → List (String × String) → List (String × String)
save_in name text [] = (name, text) ∷ []
save_in name text ((n, t) ∷ files) =
    let rest = save_in name text files in if n == name then (name, text) ∷ files else (n, t) ∷ rest

module _ {V J : Type 0} where
  unfoldable pub write_task : String → Ledger V J → Ledger V J
  write_task text l = record l { task = some (strip text ++ "\n") }

  unfoldable pub write_plan : String → Ledger V J → Ledger V J
  write_plan text l = record l { plan = some (cap_text text l.plan_chars ++ "\n") }

  unfoldable pub write_notes : String → Ledger V J → Ledger V J
  write_notes text l = record l { notes = some (cap_text text l.notes_chars ++ "\n") }

  unfoldable pub write_tasks : List TaskItem → Ledger V J → Ledger V J
  write_tasks tasks l = record l { tasks = some tasks }

  unfoldable pub write_job : J → Ledger V J → Ledger V J
  write_job job l = record l { job = some job }

  unfoldable pub write_snapshot : List String → List (String × String) → Ledger V J → Ledger V J
  write_snapshot paths contents l = record l {
    snapshot = some (record { paths = paths; contents = contents });
  }

  unfoldable pub write_inflight : ℕ → ℕ → String → Ledger V J → Ledger V J
  write_inflight round id text l = record l {
    inflight = some (record { round = round; id = id; text = text });
  }

  unfoldable pub clear_inflight : Ledger V J → Ledger V J
  clear_inflight l = record l { inflight = none }

  -- `stamp` is the time as the entry shows it.
  unfoldable pub append_steer : String → String → Ledger V J → Ledger V J
  unfolding read
  append_steer stamp text l =
      let stripped : String = strip text in
      let current : String = read l.steer in
      let entry : String = "(" ++ (stamp ++ (") " ++ stripped)) in
      if stripped == "" then l else record l {
        steer = some ((if current == "" then entry else current ++ ("\n\n" ++ entry)) ++ "\n");
      }

  unfoldable pub log : String → Ledger V J → Ledger V J
  log event l = record l { rounds_log = append l.rounds_log (event ∷ []) }

  unfoldable pub save_transcript : String → String → Ledger V J → Ledger V J
  unfolding save_in
  save_transcript name text l = record l { transcripts = save_in name text l.transcripts }
