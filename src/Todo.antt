-- ===== src/Todo.antt =====
-- The `todo` tool of privibe/core/tools/builtins/todo.py.
mod Examples
pub mod Runs
use privibe.Prelude.{
  ℕ, String, Bool, true, false, not, ◌||◌, Option, none, some, List, [], ◌∷◌, length, ltb,
  if◌then◌else◌, ◌==◌,
}
use privibe.Prelude.Exec.{Result, ok, err, Exec}

pub data TodoStatus : Type 0 where
  pending in_progress completed cancelled : TodoStatus

pub data TodoPriority : Type 0 where
  low medium high : TodoPriority

pub record TodoItem : Type 0 where
  pub id : String
  pub content : String
  pub status : TodoStatus
  pub priority : TodoPriority

pub record TodoArgs : Type 0 where
  pub action : String
  pub todos : Option (List TodoItem)

-- The result, its message as the number that it names.
pub data TodoMessage : Type 0 where
  retrieved updated : ℕ → TodoMessage

pub record TodoResult : Type 0 where
  pub message : TodoMessage
  pub todos : List TodoItem
  pub total_count : ℕ

pub data ToolError : Type 0 where
  too_many_todos : ℕ → ToolError
  ids_not_unique : ToolError
  invalid_action : String → ToolError

-- The tool's state beside its configuration.
pub record Todo : Type 0 where
  pub max_todos : ℕ
  pub todos : List TodoItem

pub has_id : String → List TodoItem → Bool
has_id id [] = false
has_id id (t ∷ ts) = t.id == id || has_id id ts

-- `len(ids) != len(set(ids))`
pub repeats_id : List TodoItem → Bool
unfolding has_id
repeats_id [] = false
repeats_id (t ∷ ts) = has_id t.id ts || repeats_id ts

pub read_todos : Todo → TodoResult
read_todos s = record {
  message = retrieved (length s.todos);
  todos = s.todos;
  total_count = length s.todos;
}

pub write_todos : List TodoItem → Exec ToolError Todo TodoResult
unfolding repeats_id
write_todos todos s =
    if ltb s.max_todos (length todos)
    then (err (too_many_todos s.max_todos), s)
    else (if repeats_id todos then (err ids_not_unique, s) else (
      ok (record { message = updated (length todos); todos = todos; total_count = length todos }),
      record s { todos = todos },
    ))

pub todos_or_empty : Option (List TodoItem) → List TodoItem
todos_or_empty none = []
todos_or_empty (some ts) = ts

pub run : TodoArgs → Exec ToolError Todo TodoResult
unfolding read_todos write_todos todos_or_empty
run args s =
    if args.action == "read"
    then (ok (read_todos s), s)
    else (if args.action == "write"
        then write_todos (todos_or_empty args.todos) s
        else (err (invalid_action args.action), s))
