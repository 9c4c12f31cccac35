-- ===== src/History.antt =====
-- `HistoryManager` of privibe/cli/history_manager.py: the prompts typed so far and the walk through
-- them.
mod Examples
pub mod Navigate
pub mod Kept
use privibe.Prelude.{
  ℕ, zero, suc, ◌-◌, Bool, true, false, not, ◌&&◌, ◌||◌, Option, none, some, List, [], ◌∷◌, ◌++◌,
  length, get_elem?, get_last?, drop, ltb, leb, eqb, if◌then◌else◌,
}
use privibe.Str.{is_space}

-- Code points.
abbrev pub Text : Type 0
Text = List ℕ

pub same_text : Text → Text → Bool
same_text [] [] = true
same_text [] (y ∷ ys) = false
same_text (x ∷ xs) [] = false
same_text (x ∷ xs) (y ∷ ys) = eqb x y && same_text xs ys

pub lstrip : Text → Text
unfolding is_space
lstrip [] = []
lstrip (c ∷ cs) = let rest = lstrip cs in if is_space c then rest else c ∷ cs

pub rstrip : Text → Text
unfolding is_space
rstrip [] = []
rstrip (c ∷ cs) = elim (rstrip cs) [ [] ↦ if is_space c then [] else c ∷ [] | d ∷ ds ↦ c ∷ d ∷ ds ]

pub strip : Text → Text
unfolding lstrip rstrip
strip text = rstrip (lstrip text)

-- `text.startswith("/")`
pub is_command : Text → Bool
is_command [] = false
is_command (c ∷ cs) = eqb c 47

-- `current_index` is `none` for the source's -1; `saved` is what the history file holds, entry by
-- entry.
pub record HistoryManager : Type 0 where
  pub entries : List Text
  pub max_entries : ℕ
  pub current_index : Option ℕ
  pub temp_input : Text
  pub saved : List Text

-- `entries[-max:]`
pub last_entries : ℕ → List Text → List Text
last_entries zero entries = entries
last_entries (suc n) entries = drop (length entries - suc n) entries

-- `reset_navigation`
pub reset_navigation : HistoryManager → HistoryManager
reset_navigation h = record h { current_index = none; temp_input = [] }

-- `_save_history`; a write that fails is ignored.
pub save_history : Bool → HistoryManager → HistoryManager
save_history writable h = if writable then record h { saved = h.entries } else h

-- What `__init__` makes of the entries of the file.
pub load : ℕ → List Text → HistoryManager
unfolding last_entries
load max file = record {
  entries = last_entries max file;
  max_entries = max;
  current_index = none;
  temp_input = [];
  saved = file;
}

pub repeats_last : Text → List Text → Bool
unfolding same_text
repeats_last text entries = elim (get_last? entries) [ none ↦ false | some e ↦ same_text e text ]

pub capped : ℕ → List Text → List Text
unfolding last_entries
capped max entries = if ltb max (length entries) then last_entries max entries else entries

pub append_entry : Bool → Text → HistoryManager → HistoryManager
unfolding repeats_last capped save_history reset_navigation
append_entry writable text h =
    if repeats_last text h.entries
    then h
    else reset_navigation (
        save_history writable
          (record h { entries = capped h.max_entries (h.entries ++ text ∷ []) }))

-- `add`; `writable` says whether the file can be written.
pub add : Bool → Text → HistoryManager → HistoryManager
unfolding strip is_command append_entry
add writable text h = elim (strip text) [
  | [] ↦ h
  | c ∷ cs ↦ if is_command (c ∷ cs) then h else append_entry writable (c ∷ cs) h
]

-- The step back from an index.
pub step_back : ℕ → HistoryManager → Option Text × HistoryManager
step_back zero h = (none, record h { current_index = some 0 })
step_back (suc i) h = (get_elem? h.entries i, record h { current_index = some i })

pub get_previous : Text → HistoryManager → Option Text × HistoryManager
unfolding step_back
get_previous current_input h = elim h.entries [
  | [] ↦ (none, h)
  | e ∷ es ↦ elim h.current_index [
    | none ↦ step_back (length h.entries) (record h { temp_input = current_input })
    | some i ↦ step_back i h
  ]
]

pub get_next : HistoryManager → Option Text × HistoryManager
unfolding reset_navigation
get_next h = elim h.current_index [
  | none ↦ (none, h)
  | some i ↦
      if ltb (suc i) (length h.entries)
      then (get_elem? h.entries (suc i), record h { current_index = some (suc i) })
      else (some h.temp_input, reset_navigation h)
]
