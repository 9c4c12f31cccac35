-- ===== src/Todo/Examples.antt =====
-- Calls of the todo tool.
use privibe.Prelude.{refl, none, some, List, [], ◌∷◌, arith}
use privibe.Todo.{TodoArgs, Todo, repeats_id, pending, medium}
use privibe.Todo.Runs.{calls, IsKept, calls-IsKept}

abbrev session : List TodoArgs
session =
    record {
      action = "write";
      todos =
          some (record { id = "1"; content = "fix it"; status = pending; priority = medium } ∷ []);
    }
    ∷ record { action = "wipe"; todos = none }
    ∷ []

abbrev no_todos : Todo
no_todos = record { max_todos = 100; todos = [] }

calls-IsKept_example : IsKept (calls session no_todos)
unfolding repeats_id
calls-IsKept_example = calls-IsKept session no_todos (omega arith, refl)
