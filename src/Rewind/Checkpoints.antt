-- ===== src/Rewind/Checkpoints.antt =====
-- The list of checkpoints as they are taken and filled: create_checkpoint, add_snapshot and
-- _get_checkpoint of privibe/core/rewind/manager.py.
use privibe.Prelude.{
  ℕ, Bool-cases, inl, inr, ◌≡◌, sym, refl, false, Option, none, some, List, [], ◌∷◌, ◌++◌, map,
  get_last?, eqb, arith, append-nil,
}
use privibe.Disk.{Disk, FileSnapshot, snapshot_of}
use privibe.Rewind.{Checkpoint, checkpoint_after, add_to_checkpoint, snapshot_into, get_checkpoint}
use privibe.Rewind.Files.{message_index-add_to_checkpoint}
use privibe.Disk.{readable}

pub get_checkpoint-append :
    (index : ℕ) (cps more : List Checkpoint) (cp : Checkpoint)
    → get_checkpoint index cps ≡ some cp
    → get_checkpoint index (cps ++ more) ≡ some cp
unfolding get_checkpoint
get_checkpoint-append index [] more cp h = cc
get_checkpoint-append index (c ∷ cps) more cp h =
    ground (arith, get_checkpoint-append index cps more cp)

pub get_checkpoint_new :
    (index : ℕ) (cps : List Checkpoint) (cp : Checkpoint)
    → get_checkpoint index cps ≡ none
    → cp.message_index ≡ index
    → get_checkpoint index (cps ++ cp ∷ []) ≡ some cp
unfolding get_checkpoint
get_checkpoint_new index [] cp h e = ground arith
get_checkpoint_new index (c ∷ cps) cp h e = ground (arith, get_checkpoint_new index cps cp)

pub get_checkpoint-snapshot_into :
    (index : ℕ) (s : FileSnapshot) (cps : List Checkpoint) (cp : Checkpoint)
    → get_checkpoint index cps ≡ some cp
    → get_checkpoint index (snapshot_into s cps) ≡ some (add_to_checkpoint s cp)
unfolding get_checkpoint snapshot_into
get_checkpoint-snapshot_into index s [] cp h = cc
get_checkpoint-snapshot_into index s (c ∷ cps) cp h =
    ground (arith, message_index-add_to_checkpoint s c, get_checkpoint-snapshot_into index s cps cp)

pub checkpoint_after-append :
    (disk : Disk) (now : ℕ) (cps : List Checkpoint)
    → (more : List Checkpoint) × (checkpoint_after readable disk now cps ≡ cps ++ more)
unfolding checkpoint_after
checkpoint_after-append disk now cps = on_last (get_last? cps) refl
  where
    on_last :
        (last : Option Checkpoint)
        → get_last? cps ≡ last
        → (more : List Checkpoint) × (checkpoint_after readable disk now cps ≡ cps ++ more)
    on_last none e =
        (record { message_index = now; files = [] } ∷ [], rw (e, checkpoint_after) refl)
    on_last (some last) e = elim (Bool-cases (eqb last.message_index now)) [
      | inl same ↦ ([], rw (e, checkpoint_after, same) (sym (append-nil cps)))
      | inr other ↦ (
        record {
          message_index = now;
          files = map (λ s. snapshot_of readable disk s.path) last.files;
        }
            ∷ [],
        rw (e, checkpoint_after, other) refl,
      )
    ]

last_is_not :
    (index : ℕ) (cps : List Checkpoint) (last : Checkpoint)
    → get_last? cps ≡ some last
    → get_checkpoint index cps ≡ none
    → eqb last.message_index index ≡ false
unfolding get_checkpoint
last_is_not index [] last e h = cc
last_is_not index (c ∷ []) last e h = ground arith
last_is_not index (c ∷ d ∷ cps) last e h = last_is_not index (d ∷ cps) last e (ground arith)

pub checkpoint_after_new :
    (disk : Disk) (now : ℕ) (cps : List Checkpoint)
    → get_checkpoint now cps ≡ none
    → (files : List FileSnapshot) × (checkpoint_after readable disk now cps
        ≡ cps
          ++ record {
            message_index = now;
            files = map (λ s. snapshot_of readable disk s.path) files;
          }
            ∷ [])
unfolding checkpoint_after
checkpoint_after_new disk now cps h = on_last (get_last? cps) refl
  where
    on_last :
        (last : Option Checkpoint)
        → get_last? cps ≡ last
        → (files : List FileSnapshot) × (checkpoint_after readable disk now cps
            ≡ cps
              ++ record {
                message_index = now;
                files = map (λ s. snapshot_of readable disk s.path) files;
              }
                ∷ [])
    on_last none e = ([], rw (e, checkpoint_after) refl)
    on_last (some last) e =
        (last.files, rw (e, checkpoint_after, last_is_not now cps last e h) refl)
