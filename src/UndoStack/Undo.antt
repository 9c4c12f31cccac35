-- ===== src/UndoStack/Undo.antt =====
-- `restore` undoes the edits that `capture` has seen.
use text.Mathlib.TextPositions.{eq_refl}
use privibe.Prelude.{
  ℕ, zero, suc, ◌<◌, ◌≡◌, ◌∙◌, ap, refl, String, Bool, true, false, Option, none, some, List, [],
  ◌∷◌, length, take, ltb, eq_iff, arith, Bool-cases, and-false, inl, inr,
}
use privibe.Prelude.Exec.{ok}
use privibe.Disk.{Bytes, Disk, FileSnapshot, store, snapshot_of}
use privibe.UndoStack.{
  Stacks, FileUndoStack, RestoreOutcome, restored, deleted, versions, put, same_bytes, same_content,
  evict, push, skips, capture, popped, restore_top, restore,
}
use privibe.Disk.{readable}

same_bytes_lem : (a b : Bytes) → same_bytes a b ≡ true → a ≡ b
unfolding same_bytes
same_bytes_lem [] [] h = refl
same_bytes_lem [] (y ∷ ys) h = cc
same_bytes_lem (x ∷ xs) [] h = cc
same_bytes_lem (x ∷ xs) (y ∷ ys) h = ground (arith, same_bytes_lem xs ys)

same_content_lem : (a b : Option Bytes) → same_content a b ≡ true → a ≡ b
unfolding same_content
same_content_lem none none h = refl
same_content_lem none (some b) h = cc
same_content_lem (some a) none h = cc
same_content_lem (some a) (some b) h = ap some (same_bytes_lem a b h)

pub versions-put :
    (key : String) (stack : List FileSnapshot) (s : Stacks) → versions key (put key stack s) ≡ stack
unfolding versions put
versions-put key stack [] = ground (arith, eq_refl key)
versions-put key stack ((k, t) ∷ rest) =
    ground (arith, eq_refl key, eq_iff k key, versions-put key stack rest)

pub evict-cons :
    (max : ℕ) (x : FileSnapshot) (xs : List FileSnapshot)
    → (older : List FileSnapshot) × (evict (suc max) (x ∷ xs) ≡ x ∷ older)
unfolding evict
evict-cons max x xs = elim (Bool-cases (ltb (suc max) (suc (length xs)))) [
  | inl long ↦ (take max xs, rw long)
  | inr short ↦ (xs, rw short)
]

-- Whether it is pushed or left out as a repetition, the newest version holds the captured content.
push_top :
    (max : ℕ) (snapshot : FileSnapshot) (stack : List FileSnapshot)
    → 0 < max
    → (top : FileSnapshot) × (older : List FileSnapshot) × (push max snapshot stack ≡ top ∷ older)
      × (top.content ≡ snapshot.content)
unfolding push
push_top zero snapshot stack h = absurd (omega arith)
push_top (suc max) snapshot [] h =
    let (older, e) = evict-cons max snapshot [] in (snapshot, older, e, refl)
push_top (suc max) snapshot (top ∷ older) h =
    elim (Bool-cases (same_content top.content snapshot.content)) [
      | inl same ↦ (top, older, rw same, same_content_lem top.content snapshot.content same)
      | inr other ↦
          let (rest, e) = evict-cons max snapshot (top ∷ older) in
          (snapshot, rest, rw other e, refl)
    ]

restore_top_lem :
    (locked : String → Bool) (key : String) (top : FileSnapshot) (older : List FileSnapshot)
    (u : FileUndoStack) (disk : Disk)
    → locked key ≡ false
    → (outcome : RestoreOutcome) × (restore_top locked key (top ∷ older) u disk
        ≡ (ok outcome, popped key older u, store key top.content disk))
unfolding restore_top
restore_top_lem locked key top older u disk h = on_content top.content refl
  where
    on_content :
        (content : Option Bytes)
        → top.content ≡ content
        → (outcome : RestoreOutcome) × (restore_top locked key (top ∷ older) u disk
            ≡ (ok outcome, popped key older u, store key top.content disk))
    on_content none e = (
      record { path = key; action = deleted; remaining = length older },
      rw (e, h) (rw and-false),
    )
    on_content (some content) e =
        (record { path = key; action = restored; remaining = length older }, rw (e, h))

pub restore-versions :
    (locked : String → Bool) (key : String) (top : FileSnapshot) (older : List FileSnapshot)
    (u : FileUndoStack) (disk : Disk)
    → versions key u.stacks ≡ top ∷ older
    → locked key ≡ false
    → (outcome : RestoreOutcome) × (restore locked key u disk
        ≡ (ok outcome, popped key older u, store key top.content disk))
unfolding restore
restore-versions locked key top older u disk e h =
    let (outcome, r) = restore_top_lem locked key top older u disk h in (outcome, rw (e, restore) r)

pub versions-capture :
    (disk : Disk) (snapshot : FileSnapshot) (u : FileUndoStack)
    → skips u.max_entry_bytes disk snapshot ≡ false
    → versions snapshot.path (capture disk snapshot u).stacks
      ≡ push u.max_versions snapshot (versions snapshot.path u.stacks)
unfolding capture
versions-capture disk snapshot u h = rw (h, capture) (versions-put snapshot.path _ u.stacks)

module _ (locked : String → Bool) (path : String) (u : FileUndoStack) (disk later : Disk) where
  -- What `restore` gives back after a capture of the file as it was: its content of then, whatever
  -- has been written to it and to other files since, and no other file changes.
  pub restore-capture :
      0 < u.max_versions
      → skips u.max_entry_bytes disk (snapshot_of readable disk path) ≡ false
      → locked path ≡ false
      → (outcome : RestoreOutcome) × ((restore locked path
            (capture disk (snapshot_of readable disk path) u)
            later).0
          ≡ ok outcome)
        × ((restore locked path (capture disk (snapshot_of readable disk path) u) later).2
            ≡ store path (disk path) later)
  restore-capture room kept free =
      let (top, older, pushed, same) =
        push_top u.max_versions (snapshot_of readable disk path) (versions path u.stacks) room in
      let (outcome, r) =
        restore-versions locked path top older (capture disk (snapshot_of readable disk path) u)
          later (versions-capture disk (snapshot_of readable disk path) u kept ∙ pushed) free in
      (outcome, ap (λ x. x.0) r, ap (λ x. x.2) r ∙ ap (λ c. store path c later) same)
