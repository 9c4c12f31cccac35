-- ===== src/Todo/Runs.antt =====
-- What the list of todos is after any calls of the tool.
use privibe.Prelude.{◌≤◌, ◌≡◌, false, List, [], ◌∷◌, length, ltb, ◌==◌, arith, Bool-cases, inl, inr}
use privibe.Todo.{run, TodoItem, TodoArgs, Todo, repeats_id, write_todos, todos_or_empty}

-- Calls of the tool, one after the other, whether or not they raise.
unfoldable pub calls : List TodoArgs → Todo → Todo
calls [] s = s
calls (args ∷ rest) s = calls rest (run args s).1

-- There are not too many todos, and no two have one id.
abbrev pub IsKept : Todo → Type 0
IsKept s = (length s.todos ≤ s.max_todos) × (repeats_id s.todos ≡ false)

write_todos-IsKept : (todos : List TodoItem) (s : Todo) → IsKept s → IsKept (write_todos todos s).1
unfolding write_todos
write_todos-IsKept todos s kept = elim (Bool-cases (ltb s.max_todos (length todos))) [
  | inl many ↦ rw (write_todos, many) kept
  | inr fits ↦ elim (Bool-cases (repeats_id todos)) [
    | inl twice ↦ rw (write_todos, fits, twice) kept
    | inr once ↦ rw (write_todos, fits, once) (ground arith, once)
  ]
]

run-IsKept : (args : TodoArgs) (s : Todo) → IsKept s → IsKept (run args s).1
unfolding run
run-IsKept args s kept = elim (Bool-cases (args.action == "read")) [
  | inl read ↦ rw (run, read) kept
  | inr other ↦ elim (Bool-cases (args.action == "write")) [
    | inl write ↦ rw (run, other, write) (write_todos-IsKept (todos_or_empty args.todos) s kept)
    | inr unknown ↦ rw (run, other, unknown) kept
  ]
]

-- Through any calls, failed ones included, the stored list has at most the allowed number of todos and
-- no two of them have one id.
pub calls-IsKept : (args : List TodoArgs) (s : Todo) → IsKept s → IsKept (calls args s)
unfolding calls
calls-IsKept [] s kept = kept
calls-IsKept (a ∷ rest) s kept = calls-IsKept rest (run a s).1 (run-IsKept a s kept)
