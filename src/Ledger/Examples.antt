-- ===== src/Ledger/Examples.antt =====
-- A run with two checkpoints.
use privibe.Prelude.{ℕ, ◌≡◌, refl, String, none, some, [], ◌∷◌, ◌≤◌, arith}
use privibe.Str.{len, decimal}
use privibe.Ledger.{
  Checkpoint, cap_text, truncation_mark, write_checkpoint, insert_by_number, checkpoints,
  latest_checkpoint, next_checkpoint_number,
}
use privibe.Ledger.Capped.{len-cap_text}
use privibe.Ledger.Checkpoints.{latest_checkpoint-write_checkpoint}

abbrev at : ℕ → Checkpoint String
at n = record {
  number = n;
  phase = "round_end";
  rounds = n;
  calls = 2;
  verifier = none;
  last_report = "";
  last_task_key = none;
  done_keys = [];
  tasks = [];
  notes = "";
  files = [];
}

latest_checkpoint-write_checkpoint_example :
    latest_checkpoint (write_checkpoint (at 8) (at 7 ∷ at 3 ∷ [])) ≡ some (at 8)
unfolding next_checkpoint_number latest_checkpoint checkpoints insert_by_number
latest_checkpoint-write_checkpoint_example =
    latest_checkpoint-write_checkpoint (at 8) (at 7 ∷ at 3 ∷ []) refl

abbrev long_text : String
long_text = "0123456789 0123456789 0123456789 0123456789 0123456789 0123456789"

-- The marker has 43 characters.
len-cap_text_example : len (cap_text long_text 50) ≤ 50
unfolding truncation_mark len decimal
len-cap_text_example = (len-cap_text long_text 50).1 (omega arith)
