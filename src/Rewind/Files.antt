-- ===== src/Rewind/Files.antt =====
-- A checkpoint follows the disk: whatever the file tools do after it, restoring its files gives the
-- disk of the moment it was taken.
use mathlib.Core.Path.{subst}
use privibe.Prelude.{
  ◌≡◌, ◌∙◌, sym, ap, refl, String, Bool, true, false, Option, none, some, List, [], ◌∷◌, ◌++◌, map,
  ◌==◌, eq_iff, arith, Bool-cases, and-false, inl, inr,
}
use privibe.Disk.{Bytes, Disk, FileSnapshot, store, store_self, snapshot_of}
use privibe.Rewind.{Checkpoint, has_path, add_to_checkpoint, restore_files}
use privibe.Disk.{readable}

-- The disk after every file has been restored.
unfoldable pub put_back : List FileSnapshot → Disk → Disk
put_back [] disk = disk
put_back (s ∷ files) disk = put_back files (store s.path s.content disk)

store_ne :
    (path : String) (content : Option Bytes) (disk : Disk) (p : String)
    → (path == p) ≡ false
    → store path content disk p ≡ disk p
store_ne path content disk p h = ground arith

pub restore_files_lem :
    (locked : String → Bool) (files : List FileSnapshot) (disk : Disk)
    → ((p : String) → locked p ≡ false)
    → restore_files locked files disk ≡ ([], put_back files disk)
unfolding restore_files put_back
restore_files_lem locked [] disk free = refl
restore_files_lem locked (s ∷ files) disk free =
    on_content s.content refl
      (λ content. restore_files_lem locked files (store s.path content disk) free)
  where
    on_content :
        (content : Option Bytes)
        → s.content ≡ content
        → ((c : Option Bytes)
            → restore_files locked files (store s.path c disk)
              ≡ ([], put_back files (store s.path c disk)))
        → restore_files locked (s ∷ files) disk ≡ ([], put_back (s ∷ files) disk)
    on_content none e rest = rw (e, free, and-false, rest)
    on_content (some c) e rest = rw (e, free, rest)

-- Only what the disk holds at `p` matters for `p`.
put_back-cong :
    (files : List FileSnapshot) (disk disk' : Disk) (p : String)
    → disk p ≡ disk' p
    → put_back files disk p ≡ put_back files disk' p
unfolding put_back
put_back-cong [] disk disk' p h = h
put_back-cong (s ∷ files) disk disk' p h = put_back-cong files _ _ p (ground (arith, h))

-- A file of the checkpoint is restored whatever the disk holds.
put_back_tracked :
    (files : List FileSnapshot) (disk disk' : Disk) (p : String)
    → has_path p files ≡ true
    → put_back files disk p ≡ put_back files disk' p
unfolding put_back has_path
put_back_tracked [] disk disk' p h = cc
put_back_tracked (s ∷ files) disk disk' p h = elim (Bool-cases (s.path == p)) [
  | inl here ↦ put_back-cong files _ _ p (rw here refl)
  | inr there ↦ put_back_tracked files _ _ p (ground arith)
]

put_back_untracked :
    (files : List FileSnapshot) (disk : Disk) (p : String)
    → has_path p files ≡ false
    → put_back files disk p ≡ disk p
unfolding put_back has_path
put_back_untracked [] disk p h = refl
put_back_untracked (s ∷ files) disk p h =
    put_back_untracked files _ p (ground arith) ∙ store_ne s.path s.content disk p (ground arith)

put_back-snoc :
    (files : List FileSnapshot) (s : FileSnapshot) (disk : Disk)
    → put_back (files ++ s ∷ []) disk ≡ store s.path s.content (put_back files disk)
unfolding put_back
put_back-snoc [] s disk = refl
put_back-snoc (t ∷ files) s disk = put_back-snoc files s _

pub put_back-snapshots :
    (files : List FileSnapshot) (disk : Disk) (p : String)
    → put_back (map (λ s. snapshot_of readable disk s.path) files) disk p ≡ disk p
unfolding put_back
put_back-snapshots files disk p = go files disk refl
  where
    go :
        (files : List FileSnapshot) (now : Disk)
        → now p ≡ disk p
        → put_back (map (λ s. snapshot_of readable disk s.path) files) now p ≡ disk p
    go [] now h = h
    go (s ∷ files) now h = elim (Bool-cases (s.path == p)) [
      | inl here ↦ go files _ (rw here (ap disk ((eq_iff s.path p).0 here)))
      | inr there ↦ go files _ (store_ne s.path (disk s.path) now p there ∙ h)
    ]

files-add_to_checkpoint_old :
    (s : FileSnapshot) (cp : Checkpoint)
    → has_path s.path cp.files ≡ true
    → (add_to_checkpoint s cp).files ≡ cp.files
unfolding add_to_checkpoint
files-add_to_checkpoint_old s cp h = rw h

files-add_to_checkpoint_new :
    (s : FileSnapshot) (cp : Checkpoint)
    → has_path s.path cp.files ≡ false
    → (add_to_checkpoint s cp).files ≡ cp.files ++ s ∷ []
unfolding add_to_checkpoint
files-add_to_checkpoint_new s cp h = rw h

pub message_index-add_to_checkpoint :
    (s : FileSnapshot) (cp : Checkpoint) → (add_to_checkpoint s cp).message_index ≡ cp.message_index
unfolding add_to_checkpoint
message_index-add_to_checkpoint s cp = ground arith

module _ (cp : Checkpoint) (path : String) (content : Option Bytes) (disk : Disk) where
  put_back_edit_self :
      put_back
        (add_to_checkpoint (snapshot_of readable disk path) cp).files
        (store path content disk)
        path
      ≡ put_back cp.files disk path
  put_back_edit_self = elim (Bool-cases (has_path path cp.files)) [
    | inl old ↦
        rw (files-add_to_checkpoint_old (snapshot_of readable disk path) cp old)
          (put_back_tracked cp.files _ _ path old)
    | inr new ↦
        rw (files-add_to_checkpoint_new (snapshot_of readable disk path) cp new, put_back-snoc)
          (store_self path (disk path) (put_back cp.files (store path content disk))
            ∙ sym (put_back_untracked cp.files disk path new))
  ]

  put_back_edit_ne :
      (p : String)
      → (path == p) ≡ false
      → put_back
          (add_to_checkpoint (snapshot_of readable disk path) cp).files
          (store path content disk)
          p
        ≡ put_back cp.files disk p
  put_back_edit_ne p there =
      let same = put_back-cong cp.files _ disk p (store_ne path content disk p there) in
      elim (Bool-cases (has_path path cp.files)) [
        | inl old ↦ rw (files-add_to_checkpoint_old (snapshot_of readable disk path) cp old) same
        | inr new ↦
            rw (files-add_to_checkpoint_new (snapshot_of readable disk path) cp new, put_back-snoc)
              (store_ne path (disk path) (put_back cp.files (store path content disk)) p there
                ∙ same)
      ]

  -- What restoring the checkpoint gives for `p` does not change when a file is captured and then
  -- written or deleted.
  pub put_back_edit :
      (p : String)
      → put_back
          (add_to_checkpoint (snapshot_of readable disk path) cp).files
          (store path content disk)
          p
        ≡ put_back cp.files disk p
  put_back_edit p = elim (Bool-cases (path == p)) [
    | inl here ↦
        subst
          (λ q.
            put_back (add_to_checkpoint (snapshot_of readable disk path) cp).files
              (store path content disk) q
            ≡ put_back cp.files disk q)
          ((eq_iff path p).0 here) put_back_edit_self
    | inr there ↦ put_back_edit_ne p there
  ]
