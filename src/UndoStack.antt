-- ===== src/UndoStack.antt =====
-- privibe/core/rewind/undo_stack.py: per file, the versions that `restore_file` walks back through.
-- A stack is kept newest first: the head of a list here is the last element of the list there.
mod Examples
pub mod Undo
pub mod Walk
pub mod Bounds
use privibe.Prelude.{
  ℕ, zero, suc, ◌+◌, ◌≤◌, ◌≡◌, String, Bool, true, false, not, ◌&&◌, ◌||◌, Option, none, some, List,
  [], ◌∷◌, length, take, ltb, eqb, if◌then◌else◌, ◌==◌,
}
use privibe.Prelude.Exec.{Result, ok, err}
use privibe.Disk.{Bytes, Disk, FileSnapshot, store, exists}

-- The dict of stacks, as an association list in which a key stands once.
abbrev pub Stacks : Type 0
Stacks = List (String × List FileSnapshot)

pub record FileUndoStack : Type 0 where
  pub stacks : Stacks
  pub max_versions : ℕ
  pub max_entry_bytes : ℕ

pub data Action : Type 0 where
  restored deleted : Action

pub record RestoreOutcome : Type 0 where
  pub path : String
  pub action : Action
  pub remaining : ℕ

pub data Error : Type 0 where
  nothing_to_restore os_error : Error

-- `FileUndoStack(max_versions, max_entry_bytes)`; the defaults are 10 and 5_000_000.
pub new : ℕ → ℕ → FileUndoStack
new max_versions max_entry_bytes = record {
  stacks = [];
  max_versions = max_versions;
  max_entry_bytes = max_entry_bytes;
}

-- `stacks.get(key)`, with no versions for a missing key.
pub versions : String → Stacks → List FileSnapshot
versions key [] = []
versions key ((k, s) ∷ rest) = if k == key then s else versions key rest

-- `stacks[key] = stack`
pub put : String → List FileSnapshot → Stacks → Stacks
put key stack [] = (key, stack) ∷ []
put key stack ((k, s) ∷ rest) =
    let others = put key stack rest in if k == key then (k, stack) ∷ rest else (k, s) ∷ others

-- `stacks.pop(key, None)`
pub remove : String → Stacks → Stacks
remove key [] = []
remove key ((k, s) ∷ rest) =
    let others = remove key rest in if k == key then others else (k, s) ∷ others

pub same_bytes : Bytes → Bytes → Bool
same_bytes [] [] = true
same_bytes [] (y ∷ ys) = false
same_bytes (x ∷ xs) [] = false
same_bytes (x ∷ xs) (y ∷ ys) = eqb x y && same_bytes xs ys

pub same_content : Option Bytes → Option Bytes → Bool
unfolding same_bytes
same_content none none = true
same_content none (some b) = false
same_content (some a) none = false
same_content (some a) (some b) = same_bytes a b

-- `del stack[0 : len(stack) - max_versions]`, where the stack is longer than that.
pub evict : ℕ → List FileSnapshot → List FileSnapshot
evict max_versions stack =
    if ltb max_versions (length stack) then take max_versions stack else stack

-- The versions of one file after a capture.
pub push : ℕ → FileSnapshot → List FileSnapshot → List FileSnapshot
unfolding same_content evict
push max_versions snapshot [] = evict max_versions (snapshot ∷ [])
push max_versions snapshot (top ∷ older) =
    if same_content top.content snapshot.content
    then top ∷ older
    else evict max_versions (snapshot ∷ top ∷ older)

-- The tests before anything is recorded: a file that is there but could not be read, and a file that
-- is too large.
pub skips : ℕ → Disk → FileSnapshot → Bool
skips max_entry_bytes disk snapshot = elim snapshot.content [
  | none ↦ exists disk snapshot.path
  | some content ↦ ltb max_entry_bytes (length content)
]

pub capture : Disk → FileSnapshot → FileUndoStack → FileUndoStack
unfolding versions put push skips
capture disk snapshot u = if skips u.max_entry_bytes disk snapshot then u else record u {
  stacks =
      put snapshot.path (push u.max_versions snapshot (versions snapshot.path u.stacks)) u.stacks;
}

-- The keys below are canonical: `canonical_key` resolves the path on the file system.
pub has_versions : String → FileUndoStack → Bool
unfolding versions
has_versions key u = elim (versions key u.stacks) [ [] ↦ false | _ ∷ _ ↦ true ]

pub next_restore_deletes : String → FileUndoStack → Bool
unfolding versions
next_restore_deletes key u = elim (versions key u.stacks) [
  | [] ↦ false
  | top ∷ _ ↦ elim top.content [ none ↦ true | some _ ↦ false ]
]

-- What is left of the stacks once a version of `key` is taken off, with `older` below it: a stack
-- that has become empty goes with its key.
pub popped : String → List FileSnapshot → FileUndoStack → FileUndoStack
unfolding put remove
popped key [] u = record u { stacks = remove key u.stacks }
popped key (top ∷ older) u = record u { stacks = put key (top ∷ older) u.stacks }

-- The part of `restore` after the lookup. `locked` says of which files the operating system refuses
-- to write or delete; the version is off its stack by then.
pub restore_top :
    (String → Bool)
    → String
    → List FileSnapshot
    → FileUndoStack
    → Disk
    → Result Error RestoreOutcome × FileUndoStack × Disk
unfolding popped
restore_top locked key [] u disk = (err nothing_to_restore, u, disk)
restore_top locked key (snapshot ∷ older) u disk =
    let refused : Result Error RestoreOutcome × FileUndoStack × Disk =
      (err os_error, popped key older u, disk) in
    elim snapshot.content [
      | none ↦ if exists disk key && locked key then refused else (
        ok (record { path = key; action = deleted; remaining = length older }),
        popped key older u,
        store key none disk,
      )
      | some content ↦ if locked key then refused else (
        ok (record { path = key; action = restored; remaining = length older }),
        popped key older u,
        store key (some content) disk,
      )
    ]

pub restore :
    (String → Bool)
    → String
    → FileUndoStack
    → Disk
    → Result Error RestoreOutcome × FileUndoStack × Disk
unfolding versions restore_top
restore locked key u disk = restore_top locked key (versions key u.stacks) u disk

pub clear : FileUndoStack → FileUndoStack
clear u = record u { stacks = [] }
