-- ===== src/UndoStack/Walk.antt =====
-- Repeated restores walk back through a row of edits.
use mathlib.Core.Path.{subst₂}
use privibe.Prelude.{
  ℕ, zero, suc, ◌+◌, ◌≤◌, ◌<◌, ◌≡◌, ◌∙◌, sym, ap, refl, String, Bool, false, Option, none, some,
  List, [], ◌∷◌, length, ltb, arith,
}
use privibe.Disk.{Bytes, Disk, FileSnapshot, store, store_self, snapshot_of}
use privibe.UndoStack.{
  Stacks, FileUndoStack, versions, remove, same_content, evict, push, skips, capture, popped,
  restore,
}
use privibe.UndoStack.Undo.{versions-put, versions-capture, restore-versions}
use privibe.Disk.{readable}
use privibe.Disk.{readable}

versions-remove : (key : String) (s : Stacks) → versions key (remove key s) ≡ []
unfolding versions remove
versions-remove key [] = refl
versions-remove key ((k, t) ∷ rest) = ground (arith, versions-remove key rest)

versions-popped :
    (key : String) (older : List FileSnapshot) (u : FileUndoStack)
    → versions key (popped key older u).stacks ≡ older
unfolding popped
versions-popped key [] u = versions-remove key u.stacks
versions-popped key (top ∷ older) u = versions-put key (top ∷ older) u.stacks

abbrev pub too_large : ℕ → Option Bytes → Bool
too_large max none = false
too_large max (some content) = ltb max (length content)

skips_lem :
    (max : ℕ) (disk : Disk) (path : String)
    → too_large max (disk path) ≡ false
    → skips max disk (snapshot_of readable disk path) ≡ false
unfolding skips
skips_lem max disk path h = ground arith

-- The newest version, if there is one, differs from `content`.
abbrev pub TopDiffers : Option Bytes → List FileSnapshot → Type 0
TopDiffers content [] = Unit
TopDiffers content (top ∷ older) = same_content top.content content ≡ false

push_new :
    (max : ℕ) (snapshot : FileSnapshot) (stack : List FileSnapshot)
    → length stack < max
    → TopDiffers snapshot.content stack
    → push max snapshot stack ≡ snapshot ∷ stack
unfolding push evict
push_new max snapshot [] room differs = ground arith
push_new max snapshot (top ∷ older) room differs = ground arith

-- A file tool's call: the snapshot is captured, then the file is written, or deleted.
pub edit : (String → Bool) → String → Option Bytes → FileUndoStack × Disk → FileUndoStack × Disk
edit unreadable path content (u, disk) =
    (capture disk (snapshot_of unreadable disk path) u, store path content disk)

pub edits :
    (String → Bool) → String → List (Option Bytes) → FileUndoStack × Disk → FileUndoStack × Disk
unfolding edit
edits unreadable path [] s = s
edits unreadable path (content ∷ contents) s =
    edits unreadable path contents (edit unreadable path content s)

pub restores : (String → Bool) → String → ℕ → FileUndoStack × Disk → FileUndoStack × Disk
restores locked path zero s = s
restores locked path (suc n) s =
    let (u, disk) = restores locked path n s in
    let (_, u', disk') = restore locked path u disk in (u', disk')

-- From `content` on, each edit changes the file, and what it replaces is small enough to keep.
abbrev pub EachChanges : ℕ → Option Bytes → List (Option Bytes) → Type 0
EachChanges max content [] = Unit
EachChanges max content (next ∷ rest) =
    (too_large max content ≡ false)
    × (same_content content next ≡ false)
    × EachChanges max next rest

capture_limits :
    (disk : Disk) (snapshot : FileSnapshot) (u : FileUndoStack)
    → ((capture disk snapshot u).max_versions ≡ u.max_versions)
      × ((capture disk snapshot u).max_entry_bytes ≡ u.max_entry_bytes)
unfolding capture
capture_limits disk snapshot u = (ground arith, ground arith)

module _ (locked unreadable : String → Bool) (path : String) (free : locked path ≡ false)
    (read : unreadable path ≡ false) where
  restore_walk :
      (top : FileSnapshot) (older : List FileSnapshot) (n : ℕ) (s : FileUndoStack × Disk)
      → versions path (restores locked path n s).0.stacks ≡ top ∷ older
      → (versions path (restores locked path (suc n) s).0.stacks ≡ older)
        × ((restores locked path (suc n) s).1 path ≡ top.content)
  unfolding restores
  restore_walk top older n s e =
      let (u, disk) = restores locked path n s in
      let (outcome, r) = restore-versions locked path top older u disk e free in
      (
        ap (λ x. versions path (x.1).stacks) r ∙ versions-popped path older u,
        ap (λ x. x.2 path) r ∙ store_self path top.content disk,
      )

  -- Edits of one file, each of which changes it, and then as many restores: the content of before the
  -- first edit is back, and so is the history of the file, as long as the history has room for all of
  -- them and the file can be read.
  pub restores-edits :
      (contents : List (Option Bytes)) (u : FileUndoStack) (disk : Disk)
      → length (versions path u.stacks) + length contents ≤ u.max_versions
      → TopDiffers (disk path) (versions path u.stacks)
      → EachChanges u.max_entry_bytes (disk path) contents
      → (versions path
            (restores locked path
              (length contents)
              (edits unreadable path contents (u, disk))).0.stacks
          ≡ versions path u.stacks)
        × ((restores locked path (length contents) (edits unreadable path contents (u, disk))).1
              path
            ≡ disk path)
  unfolding edits edit
  restores-edits [] u disk room differs changes = unfold restores in (refl, refl)
  restores-edits (next ∷ rest) u disk room differs (fits, changed, later) =
      let snapshot : FileSnapshot = snapshot_of readable disk path in
      let u' : FileUndoStack = capture disk snapshot u in
      let (same_max, same_bytes_max) = capture_limits disk snapshot u in
      let pushed : versions path u'.stacks ≡ snapshot ∷ versions path u.stacks =
        versions-capture disk snapshot u (skips_lem u.max_entry_bytes disk path fits)
        ∙ push_new u.max_versions snapshot (versions path u.stacks) (omega arith) differs in
      let now : store path next disk path ≡ next = store_self path next disk in
      let (stacks_back, content_back) =
        restores-edits rest u' (store path next disk) (omega (arith, ap length pushed, same_max))
          (subst₂ TopDiffers (sym now) (sym pushed) changed)
          (subst₂ (λ max content. EachChanges max content rest) (sym same_bytes_max) (sym now)
            later) in
      rw read (
        restore_walk snapshot (versions path u.stacks) (length rest)
          (edits unreadable path rest (u', store path next disk)) (stacks_back ∙ pushed))
