-- ===== src/Orchestrate/Parse.antt =====
-- What the roles answer: privibe/core/orchestrate/parse.py. What its regular expressions match is an
-- argument.
pub mod Accepted
use Prim.Native.String.{◌++◌}
use text.Mathlib.Text.{starts_with}
use privibe.Prelude.{
  ℕ, String, Bool, true, false, Option, none, some, List, [], ◌∷◌, ◌&&◌, ◌||◌, ◌==◌, eqb, ltb,
  if◌then◌else◌, or_empty,
}
use privibe.Prelude.Exec.{Result, ok, err}
use privibe.Str.{
  strip, strip_by, rstrip_by, ends_with, after_newline, before_last, first_chars, chars_from, is_in,
  decimal,
}
use privibe.Ledger.{TaskItem}

-- One match of _TASK_LINE.
pub record TaskLine : Type 0 where
  pub id : ℕ
  pub mark : Option String
  pub text : String

-- The matches of the patterns. `lower` is `str.lower`, and `quoted` is `repr` of a text.
pub record Patterns : Type 0 where
  pub lower : String → String
  pub quoted : String → String
  pub splitlines : String → List String
  pub task_line : String → Option TaskLine
  -- The start and the end of the last match of _SECTION for this name.
  pub section : String → String → Option (ℕ × ℕ)
  -- The start of the last match of _NEXT_LINE, and its value.
  pub next_line : String → Option (ℕ × String)
  -- The number that the value of a NEXT line begins with.
  pub next_number : String → Option ℕ
  -- The body of the markdown section "Notes", as `extract_section` finds it.
  pub notes_section : String → Option String

unfoldable pub strip_fences : String → String
strip_fences text =
    let stripped : String = strip text in
    if starts_with stripped "```" && ends_with stripped "```"
    then before_last "```" (or_empty (after_newline stripped))
    else text

abbrev done_words : List String
done_words = "done" ∷ "x" ∷ "complete" ∷ "completed" ∷ "finished" ∷ []

unfoldable pub id_in : ℕ → List ℕ → Bool
id_in id [] = false
id_in id (i ∷ is) = eqb i id || id_in id is

pub record PlanAnswer : Type 0 where
  pub plan : String
  pub tasks : List TaskItem

pub record ManageAnswer : Type 0 where
  pub tasks : List TaskItem
  pub next_id : Option ℕ
  pub done : Bool

-- `next((t for t in tasks if t.id == id), None)`
unfoldable pub task_with_id : ℕ → List TaskItem → Option TaskItem
task_with_id id [] = none
task_with_id id (t ∷ ts) = let rest = task_with_id id ts in if eqb t.id id then some t else rest

unfoldable pub next_task : ManageAnswer → Option TaskItem
unfolding task_with_id
next_task answer = elim answer.next_id [ none ↦ none | some id ↦ task_with_id id answer.tasks ]

abbrev is_empty : List TaskItem → Bool
is_empty [] = true
is_empty (t ∷ ts) = false

-- The characters "`" and "*", and ".".
abbrev is_quote : ℕ → Bool
is_quote c = eqb c 96 || eqb c 42

abbrev is_dot : ℕ → Bool
is_dot c = eqb c 46

module _ (p : Patterns) where
  unfoldable pub parse_task_lines : List ℕ → List String → List TaskItem
  unfolding id_in
  parse_task_lines seen [] = []
  parse_task_lines seen (line ∷ lines) = elim (p.task_line line) [
    | none ↦ parse_task_lines seen lines
    | some m ↦
        let skipped = parse_task_lines seen lines in
        let rest = parse_task_lines (m.id ∷ seen) lines in
        if id_in m.id seen
        then skipped
        else (record {
          id = m.id;
          text = strip m.text;
          done = is_in (p.lower (strip (or_empty m.mark))) done_words;
        }
            ∷ rest)
  ]

  unfoldable pub tasks_of : String → List TaskItem
  unfolding parse_task_lines
  tasks_of block = parse_task_lines [] (p.splitlines block)

  unfoldable pub plan_text : String → ℕ × ℕ → String
  plan_text text tasks = elim (p.section "PLAN" text) [
    | none ↦ strip (first_chars tasks.0 text)
    | some plan ↦
        if ltb plan.1 tasks.1
        then strip (chars_from plan.1 (first_chars tasks.0 text))
        else strip (first_chars tasks.0 text)
  ]

  unfoldable pub parse_plan : String → Result String PlanAnswer
  unfolding strip_fences plan_text tasks_of
  parse_plan answer =
      let text : String = strip_fences answer in
      elim (p.section "TASKS" text) [
        | none ↦ err "no 'TASKS:' section"
        | some place ↦
            let plan : String = plan_text text place in
            let tasks : List TaskItem = tasks_of (chars_from place.1 text) in
            if is_empty tasks
            then err "'TASKS:' section has no numbered tasks"
            else if plan == ""
            then err "no plan text before 'TASKS:'"
            else ok (record { plan = plan; tasks = tasks })
      ]

  -- The value of the last NEXT line.
  abbrev next_value : String → String
  next_value value = strip (strip_by is_quote (strip value))

  unfoldable pub parse_next : ℕ → List TaskItem → Result String ManageAnswer
  unfolding task_with_id
  parse_next id tasks =
      let named : String = "'NEXT: " ++ (decimal id ++ "' names ") in
      if is_empty tasks
      then err "no numbered task list before 'NEXT:'"
      else elim (task_with_id id tasks) [
        | none ↦ err (named ++ "no task in the list")
        | some chosen ↦
            if chosen.done
            then err (named ++ "a task marked done")
            else ok (record { tasks = tasks; next_id = some id; done = false })
      ]

  unfoldable pub parse_manage : String → Result String ManageAnswer
  unfolding strip_fences tasks_of parse_next
  parse_manage answer =
      let text : String = strip_fences answer in
      elim (p.next_line text) [
        | none ↦ err "no 'NEXT:' line"
        | some (start, found) ↦
            let value : String = next_value found in
            let tasks : List TaskItem = tasks_of (first_chars start text) in
            if rstrip_by is_dot (p.lower value) == "done"
            then ok (record { tasks = tasks; next_id = none; done = true })
            else elim (p.next_number value) [
              | none ↦ err ("'NEXT:' must be a task id or DONE, got " ++ p.quoted value)
              | some id ↦ parse_next id tasks
            ]
      ]

  -- `body or None`
  unfoldable pub parse_worker_notes : String → Option String
  parse_worker_notes report = elim (p.notes_section report) [
    | none ↦ none
    | some body ↦ if body == "" then none else some body
  ]
