-- ===== src/UndoStack/Examples.antt =====
-- `FileUndoStack` on concrete files.
use privibe.Prelude.{
  ◌≡◌, refl, String, Bool, false, none, some, List, [], ◌∷◌, if◌then◌else◌, ◌==◌, arith,
}
use privibe.Disk.{Disk, snapshot_of}
use privibe.UndoStack.{FileUndoStack, versions, same_content}
use privibe.UndoStack.Walk.{edits, restores, restores-edits}
use privibe.UndoStack.Bounds.{Op, capture_of, restore_of, IsBounded, run, run-IsBounded}
use privibe.Disk.{readable}

abbrev files : Disk
files path = if path == "a.py" then some (97 ∷ 98 ∷ []) else none

abbrev unlocked : String → Bool
unlocked path = false

abbrev empty_history : FileUndoStack
empty_history = record { stacks = []; max_versions = 3; max_entry_bytes = 4 }

restores-edits_example :
    (versions "a.py"
        (restores unlocked "a.py" 2
          (edits readable "a.py" (none ∷ some (99 ∷ []) ∷ []) (empty_history, files))).0.stacks
      ≡ versions "a.py" empty_history.stacks)
    × ((restores unlocked "a.py" 2
            (edits readable "a.py" (none ∷ some (99 ∷ []) ∷ []) (empty_history, files))).1
          "a.py"
        ≡ some (97 ∷ 98 ∷ []))
unfolding versions same_content
restores-edits_example =
    restores-edits unlocked readable "a.py" refl refl (none ∷ some (99 ∷ []) ∷ []) empty_history
      files (omega arith) tt (refl, refl, (refl, refl, tt))

abbrev session : List Op
session =
    capture_of files (snapshot_of readable files "a.py")
    ∷ capture_of files (snapshot_of readable files "b.py")
    ∷ restore_of unlocked "a.py" files
    ∷ []

run-IsBounded_example : IsBounded (run session empty_history)
run-IsBounded_example = run-IsBounded session empty_history tt
