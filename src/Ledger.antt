-- ===== src/Ledger.antt =====
-- The orchestrator's ledger, privibe/core/orchestrate/ledger.py: capped texts, task items, and the
-- checkpoints of a run, which are files named by their number.
mod Examples
pub mod Capped
pub mod Checkpoints
pub mod Files
use Prim.Native.String.{◌++◌ as str_append}
use privibe.Prelude.{
  ℕ, zero, suc, ◌+◌, ◌-◌, String, Bool, true, false, Option, none, some, List, [], ◌∷◌, ◌++◌,
  length, take, get_last?, ltb, leb, eqb, if◌then◌else◌,
}
use privibe.Prelude.Exec.{Result, ok, err}
use privibe.Str.{strip, rstrip, len, first_chars, decimal}

-- TRUNCATION_MARK with the limit put in.
unfoldable pub truncation_mark : ℕ → String
truncation_mark limit =
    str_append "\n[... cut to " (str_append (decimal limit) " characters by the harness ...]")

unfoldable pub cap_text : String → ℕ → String
unfolding truncation_mark
cap_text text limit =
    let stripped : String = strip text in
    let mark : String = truncation_mark limit in
    if leb (len stripped) limit
    then stripped
    else str_append (rstrip (first_chars (limit - len mark) stripped)) mark

pub record TaskItem : Type 0 where
  pub id : ℕ
  pub text : String
  pub done : Bool

-- `V` is the verifier's last run as JSON, which the ledger stores and never looks into.
pub record Checkpoint (V : Type 0) : Type 0 where
  pub number : ℕ
  pub phase : String
  pub rounds : ℕ
  pub calls : ℕ
  pub verifier : Option V
  pub last_report : String
  pub last_task_key : Option String
  pub done_keys : List String
  pub tasks : List TaskItem
  pub notes : String
  pub files : List (String × Option String)

pub data LedgerStateError : Type 0 where
  no_checkpoint : ℕ → LedgerStateError

module _ {V : Type 0} where
  -- The state directory, as the checkpoints of its files in the order in which it lists them. The file
  -- that `write_checkpoint` writes replaces the one of the same number.
  unfoldable pub write_checkpoint : Checkpoint V → List (Checkpoint V) → List (Checkpoint V)
  write_checkpoint cp [] = cp ∷ []
  write_checkpoint cp (c ∷ cs) =
      let rest = write_checkpoint cp cs in if eqb c.number cp.number then cp ∷ cs else c ∷ rest

  unfoldable pub insert_by_number : Checkpoint V → List (Checkpoint V) → List (Checkpoint V)
  insert_by_number c [] = c ∷ []
  insert_by_number c (d ∷ ds) =
      let rest = insert_by_number c ds in if leb c.number d.number then c ∷ d ∷ ds else d ∷ rest

  -- `checkpoints()`: sorted by number.
  unfoldable pub checkpoints : List (Checkpoint V) → List (Checkpoint V)
  unfolding insert_by_number
  checkpoints [] = []
  checkpoints (c ∷ cs) = insert_by_number c (checkpoints cs)

  unfoldable pub latest_checkpoint : List (Checkpoint V) → Option (Checkpoint V)
  unfolding checkpoints
  latest_checkpoint dir = get_last? (checkpoints dir)

  unfoldable pub find_number : ℕ → List (Checkpoint V) → Result LedgerStateError (Checkpoint V)
  find_number number [] = err (no_checkpoint number)
  find_number number (c ∷ cs) =
      let rest = find_number number cs in if eqb c.number number then ok c else rest

  -- `checkpoint(number)`
  unfoldable pub checkpoint : ℕ → List (Checkpoint V) → Result LedgerStateError (Checkpoint V)
  unfolding find_number checkpoints
  checkpoint number dir = find_number number (checkpoints dir)

  unfoldable pub next_checkpoint_number : List (Checkpoint V) → ℕ
  unfolding latest_checkpoint
  next_checkpoint_number dir = elim (latest_checkpoint dir) [
    | none ↦ 1
    | some latest ↦ latest.number + 1
  ]

  unfoldable pub kept_through : ℕ → List (Checkpoint V) → List (Checkpoint V)
  kept_through number [] = []
  kept_through number (c ∷ cs) =
      let rest = kept_through number cs in if ltb number c.number then rest else c ∷ rest

  unfoldable pub numbers_above : ℕ → List (Checkpoint V) → List ℕ
  numbers_above number [] = []
  numbers_above number (c ∷ cs) =
      let rest = numbers_above number cs in if ltb number c.number then c.number ∷ rest else rest

  -- The numbers that were dropped, and the directory afterwards.
  unfoldable pub drop_checkpoints_after : ℕ → List (Checkpoint V) → List ℕ × List (Checkpoint V)
  unfolding numbers_above kept_through checkpoints
  drop_checkpoints_after number dir =
      (numbers_above number (checkpoints dir), kept_through number dir)
