-- ===== src/Orchestrate/Parse/Accepted.antt =====
-- What an answer of the manager that is accepted says: parse_manage of
-- privibe/core/orchestrate/parse.py.
use mathlib.Core.Path.{subst}
use privibe.Prelude.{
  ℕ, ◌≡◌, refl, String, true, false, none, some, List, [], ◌∷◌, ◌⊎◌, inl, inr, ◌==◌, Bool-cases,
  Option-cases,
}
use privibe.Prelude.Exec.{Result, ok, err}
use privibe.Str.{rstrip_by, first_chars}
use privibe.Ledger.{TaskItem}
use privibe.Orchestrate.Parse.{
  Patterns, strip_fences, id_in, ManageAnswer, task_with_id, next_task, is_empty, is_dot,
  parse_task_lines, tasks_of, next_value, parse_next, parse_manage,
}

-- No id is one of `seen`, and none is there twice.
abbrev pub NoRepeat : List ℕ → List TaskItem → Type 0
NoRepeat seen [] = Unit
NoRepeat seen (t ∷ ts) = (id_in t.id seen ≡ false) × NoRepeat (t.id ∷ seen) ts

-- The answer is DONE, or it names a task of its list that is open.
abbrev pub Names : ManageAnswer → Type 0
Names a =
    ((a.done ≡ true) × (a.next_id ≡ none))
    ⊎ ((t : TaskItem) × (a.done ≡ false) × (next_task a ≡ some t) × (t.done ≡ false))

module _ (p : Patterns) where
  parse_task_lines-NoRepeat :
      (seen : List ℕ) (lines : List String) → NoRepeat seen (parse_task_lines p seen lines)
  unfolding parse_task_lines
  parse_task_lines-NoRepeat seen [] = tt
  parse_task_lines-NoRepeat seen (line ∷ lines) = elim (Option-cases (p.task_line line)) [
    | inl e ↦ rw (parse_task_lines, e) (parse_task_lines-NoRepeat seen lines)
    | inr (m, e) ↦
        let skipped = parse_task_lines-NoRepeat seen lines in
        let rest = parse_task_lines-NoRepeat (m.id ∷ seen) lines in
        elim (Bool-cases (id_in m.id seen)) [
          | inl known ↦ rw (parse_task_lines, e, known) skipped
          | inr fresh ↦ rw (parse_task_lines, e, fresh) (fresh, rest)
        ]
  ]

  abbrev Accepts : Result String ManageAnswer → Type 0
  Accepts (err e) = Unit
  Accepts (ok a) = NoRepeat [] a.tasks × Names a

  parse_next-Accepts :
      (id : ℕ) (tasks : List TaskItem) → NoRepeat [] tasks → Accepts (parse_next p id tasks)
  unfolding parse_next next_task
  parse_next-Accepts id tasks h = elim (Bool-cases (is_empty tasks)) [
    | inl e ↦ rw (parse_next, e) tt
    | inr some_task ↦ elim (Option-cases (task_with_id id tasks)) [
      | inl e ↦ rw (parse_next, some_task, e) tt
      | inr (t, e) ↦ elim (Bool-cases t.done) [
        | inl done ↦ rw (parse_next, some_task, e, done) tt
        | inr left ↦ rw (parse_next, some_task, e, left) (h, inr (t, refl, e, left))
      ]
    ]
  ]

  parse_manage-Accepts : (answer : String) → Accepts (parse_manage p answer)
  unfolding parse_manage tasks_of strip_fences
  parse_manage-Accepts answer = elim (Option-cases (p.next_line (strip_fences answer))) [
    | inl e ↦ rw (parse_manage, e) tt
    | inr ((start, found), e) ↦
        let value : String = next_value p found in
        let block = first_chars start (strip_fences answer) in
        let h = parse_task_lines-NoRepeat [] (p.splitlines block) in
        elim (Bool-cases (rstrip_by is_dot (p.lower value) == "done")) [
          | inl done ↦ rw (parse_manage, e, done) (h, inl (refl, refl))
          | inr other ↦ elim (Option-cases (p.next_number value)) [
            | inl n ↦ rw (parse_manage, e, other, n) tt
            | inr (id, n) ↦
                rw (parse_manage, e, other, n) (parse_next-Accepts id (tasks_of p block) h)
          ]
        ]
  ]

  -- An answer of the manager that is accepted lists no task id twice, and says DONE or names the task
  -- to do next, a task of its list that is not marked as done.
  pub parse_manage-Names :
      (answer : String) (a : ManageAnswer)
      → parse_manage p answer ≡ ok a
      → NoRepeat [] a.tasks × Names a
  parse_manage-Names answer a e = subst Accepts e (parse_manage-Accepts answer)
