-- ===== src/UndoStack/Bounds.antt =====
-- The history stays small.
use privibe.Prelude.{
  ℕ, zero, suc, ◌≤◌, ◌≡◌, String, Bool, false, List, [], ◌∷◌, length, take, ltb, ◌==◌, arith, All,
  Bool-cases, inl, inr,
}
use privibe.Disk.{Disk, FileSnapshot}
use privibe.UndoStack.{
  Stacks, FileUndoStack, versions, put, remove, same_content, evict, push, skips, capture, popped,
  restore, restore_top, clear,
}
use privibe.UndoStack.Walk.{too_large}

-- Each version is small enough, and there are not too many of them.
abbrev Fits : ℕ → ℕ → List FileSnapshot → Type 0
Fits max max_bytes stack =
    (length stack ≤ max) × All (λ s. too_large max_bytes s.content ≡ false) stack

abbrev pub IsBounded : FileUndoStack → Type 0
IsBounded u = All (λ e. Fits u.max_versions u.max_entry_bytes e.1) u.stacks

module _ (max max_bytes : ℕ) where
  take-small :
      (n : ℕ) (stack : List FileSnapshot)
      → All (λ s. too_large max_bytes s.content ≡ false) stack
      → All (λ s. too_large max_bytes s.content ≡ false) (take n stack)
  take-small zero stack h = tt
  take-small (suc n) [] h = tt
  take-small (suc n) (x ∷ stack) (h, hs) = (h, take-small n stack hs)

  length-take-le : (n : ℕ) (stack : List FileSnapshot) → length (take n stack) ≤ n
  length-take-le zero stack = omega arith
  length-take-le (suc n) [] = omega arith
  length-take-le (suc n) (x ∷ stack) = omega (arith, length-take-le n stack)

  evict-Fits :
      (stack : List FileSnapshot)
      → All (λ s. too_large max_bytes s.content ≡ false) stack
      → Fits max max_bytes (evict max stack)
  unfolding evict
  evict-Fits stack h = elim (Bool-cases (ltb max (length stack))) [
    | inl long ↦ rw (long, evict) (length-take-le max stack, take-small max stack h)
    | inr short ↦ rw (short, evict) (ground arith, h)
  ]

  push-Fits :
      (snapshot : FileSnapshot) (stack : List FileSnapshot)
      → too_large max_bytes snapshot.content ≡ false
      → Fits max max_bytes stack
      → Fits max max_bytes (push max snapshot stack)
  unfolding push
  push-Fits snapshot [] small h = evict-Fits (snapshot ∷ []) (small, tt)
  push-Fits snapshot (top ∷ older) small h =
      elim (Bool-cases (same_content top.content snapshot.content)) [
        | inl same ↦ rw (same, push) h
        | inr other ↦ rw (other, push) (evict-Fits (snapshot ∷ top ∷ older) (small, h.1))
      ]

  versions-Fits :
      (key : String) (s : Stacks)
      → All (λ e. Fits max max_bytes e.1) s
      → Fits max max_bytes (versions key s)
  unfolding versions
  versions-Fits key [] h = (omega arith, tt)
  versions-Fits key ((k, t) ∷ rest) (h, hs) = elim (Bool-cases (k == key)) [
    | inl here ↦ rw (here, versions) h
    | inr there ↦ rw (there, versions) (versions-Fits key rest hs)
  ]

  put-Fits :
      (key : String) (stack : List FileSnapshot) (s : Stacks)
      → Fits max max_bytes stack
      → All (λ e. Fits max max_bytes e.1) s
      → All (λ e. Fits max max_bytes e.1) (put key stack s)
  unfolding put
  put-Fits key stack [] h hs = (h, tt)
  put-Fits key stack ((k, t) ∷ rest) h (ht, hs) = elim (Bool-cases (k == key)) [
    | inl here ↦ rw (here, put) (h, hs)
    | inr there ↦ rw (there, put) (ht, put-Fits key stack rest h hs)
  ]

  remove-Fits :
      (key : String) (s : Stacks)
      → All (λ e. Fits max max_bytes e.1) s
      → All (λ e. Fits max max_bytes e.1) (remove key s)
  unfolding remove
  remove-Fits key [] h = tt
  remove-Fits key ((k, t) ∷ rest) (ht, hs) = elim (Bool-cases (k == key)) [
    | inl here ↦ rw (here, remove) (remove-Fits key rest hs)
    | inr there ↦ rw (there, remove) (ht, remove-Fits key rest hs)
  ]

-- A snapshot that is not skipped is small enough.
small_of_skips :
    (max_bytes : ℕ) (disk : Disk) (snapshot : FileSnapshot)
    → skips max_bytes disk snapshot ≡ false
    → too_large max_bytes snapshot.content ≡ false
unfolding skips
small_of_skips max_bytes disk snapshot h = ground arith

-- A capture keeps every file's history within both limits, whatever the snapshot.
pub capture-IsBounded :
    (disk : Disk) (snapshot : FileSnapshot) (u : FileUndoStack)
    → IsBounded u
    → IsBounded (capture disk snapshot u)
unfolding capture
capture-IsBounded disk snapshot u h = elim (Bool-cases (skips u.max_entry_bytes disk snapshot)) [
  | inl skipped ↦ rw (skipped, capture) h
  | inr kept ↦
      rw (kept, capture)
        (put-Fits u.max_versions u.max_entry_bytes snapshot.path _ u.stacks
          (push-Fits u.max_versions u.max_entry_bytes snapshot _
            (small_of_skips u.max_entry_bytes disk snapshot kept)
            (versions-Fits u.max_versions u.max_entry_bytes snapshot.path u.stacks h))
          h)
]

popped-IsBounded :
    (key : String) (top : FileSnapshot) (older : List FileSnapshot) (u : FileUndoStack)
    → Fits u.max_versions u.max_entry_bytes (top ∷ older)
    → IsBounded u
    → IsBounded (popped key older u)
unfolding popped
popped-IsBounded key top [] u f h = remove-Fits u.max_versions u.max_entry_bytes key u.stacks h
popped-IsBounded key top (next ∷ older) u (le, small) h =
    put-Fits u.max_versions u.max_entry_bytes key (next ∷ older) u.stacks (omega arith, small.1) h

restore_top-state :
    (locked : String → Bool) (key : String) (top : FileSnapshot) (older : List FileSnapshot)
    (u : FileUndoStack) (disk : Disk)
    → (restore_top locked key (top ∷ older) u disk).1 ≡ popped key older u
unfolding restore_top
restore_top-state locked key top older u disk = ground arith

restore_top-IsBounded :
    (locked : String → Bool) (key : String) (stack : List FileSnapshot) (u : FileUndoStack)
    (disk : Disk)
    → Fits u.max_versions u.max_entry_bytes stack
    → IsBounded u
    → IsBounded (restore_top locked key stack u disk).1
restore_top-IsBounded locked key [] u disk f h = unfold restore_top in h
restore_top-IsBounded locked key (top ∷ older) u disk f h =
    rw restore_top-state (popped-IsBounded key top older u f h)

-- What happens to the history in a session.
pub data Op : Type 0 where
  capture_of : Disk → FileSnapshot → Op
  restore_of : (String → Bool) → String → Disk → Op
  clear_all : Op

pub run : List Op → FileUndoStack → FileUndoStack
unfolding restore clear
run [] u = u
run (capture_of disk snapshot ∷ ops) u = run ops (capture disk snapshot u)
run (restore_of locked key disk ∷ ops) u = run ops (restore locked key u disk).1
run (clear_all ∷ ops) u = run ops (clear u)

-- In every session, whatever is captured, restored or cleared, on whatever disk: no file has more
-- versions than allowed, and no version is larger than allowed.
pub run-IsBounded : (ops : List Op) (u : FileUndoStack) → IsBounded u → IsBounded (run ops u)
unfolding run
run-IsBounded [] u h = h
run-IsBounded (capture_of disk snapshot ∷ ops) u h =
    run-IsBounded ops (capture disk snapshot u) (capture-IsBounded disk snapshot u h)
run-IsBounded (restore_of locked key disk ∷ ops) u h =
    run-IsBounded ops (restore locked key u disk).1 (
      restore_top-IsBounded locked key (versions key u.stacks) u disk
        (versions-Fits u.max_versions u.max_entry_bytes key u.stacks h) h)
run-IsBounded (clear_all ∷ ops) u h = run-IsBounded ops (clear u) tt
