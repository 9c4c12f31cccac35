-- ===== src/Rewind/Turn.antt =====
-- A turn undone: the checkpoint before it, the messages and the file edits in it, and the rewind to
-- its user message.
use privibe.Prelude.{
  ℕ, ◌≡◌, ◌∙◌, sym, ap, refl, String, Bool, true, false, Option, none, some, List, [], ◌∷◌, ◌++◌,
  map, length, get_elem?, get_elem?-append_here, take, take-append, or_empty, append_assoc,
  append-nil,
}
use privibe.Prelude.Int.{pos}
use privibe.Prelude.Exec.{ok}
use privibe.Message.{LlmMessage, is_user}
use privibe.Conversation
use privibe.Conversation.Rewind.{messages-add}
use privibe.Disk.{Bytes, Disk, store, snapshot_of}
use privibe.Rewind.{
  Checkpoint, RewindManager, add_to_checkpoint, get_checkpoint, create_checkpoint, add_snapshot,
  files_for, rewind_to_message,
}
use privibe.Rewind.Files.{put_back, put_back-snapshots, put_back_edit, restore_files_lem}
use privibe.Rewind.Cut.{rewind_to_message_outcome}
use privibe.Disk.{readable}
use privibe.Prelude.Exec.{Result}
use privibe.Rewind.{RewindError, RestoreError}
use privibe.Rewind.Checkpoints.{
  get_checkpoint-append, get_checkpoint_new, get_checkpoint-snapshot_into, checkpoint_after-append,
  checkpoint_after_new,
}

-- What a turn does: a message is added, a file tool captures a file and writes or deletes it, a
-- checkpoint is taken.
pub data Step : Type 0 where
  said : LlmMessage → Step
  edited : String → Option Bytes → Step
  checkpointed : Step

-- Restoring the files of the checkpoint at `index` gives `before`.
Restores : ℕ → Disk → List Checkpoint → Disk → Type 0
Restores index before cps disk =
    (cp : Checkpoint) × (get_checkpoint index cps ≡ some cp)
    × ((p : String) → put_back cp.files disk p ≡ before p)

module _ {T : Type 0} where
  unfoldable pub step : (String → Bool) → Step → RewindManager T → RewindManager T
  step unreadable (said msg) m = record m { conversation = Conversation.add msg m.conversation }
  step unreadable (edited path content) m =
      record (add_snapshot (snapshot_of unreadable m.disk path) m) {
        disk = store path content m.disk;
      }
  step unreadable checkpointed m = create_checkpoint unreadable m

  unfoldable pub steps : (String → Bool) → List Step → RewindManager T → RewindManager T
  unfolding step
  steps unreadable [] m = m
  steps unreadable (s ∷ ss) m = steps unreadable ss (step unreadable s m)

  step-Restores :
      (s : Step) (index : ℕ) (before : Disk) (m : RewindManager T)
      → Restores index before m.checkpoints m.disk
      → Restores index before (step readable s m).checkpoints (step readable s m).disk
  unfolding Restores step add_snapshot create_checkpoint
  step-Restores (said msg) index before m h = h
  step-Restores (edited path content) index before m (cp, e, h) = (
    add_to_checkpoint (snapshot_of readable m.disk path) cp,
    get_checkpoint-snapshot_into index (snapshot_of readable m.disk path) m.checkpoints cp e,
    λ p. put_back_edit cp path content m.disk p ∙ h p,
  )
  step-Restores checkpointed index before m (cp, e, h) =
      let (more, a) =
        checkpoint_after-append m.disk (length m.conversation.messages) m.checkpoints in
      (cp, rw a (get_checkpoint-append index m.checkpoints more cp e), h)

  steps-Restores :
      (ss : List Step) (index : ℕ) (before : Disk) (m : RewindManager T)
      → Restores index before m.checkpoints m.disk
      → Restores index before (steps readable ss m).checkpoints (steps readable ss m).disk
  unfolding steps
  steps-Restores [] index before m h = h
  steps-Restores (s ∷ ss) index before m h =
      steps-Restores ss index before (step readable s m) (step-Restores s index before m h)

  messages-step :
      (s : Step) (m : RewindManager T)
      → (more : List LlmMessage) × ((step readable s m).conversation.messages
          ≡ m.conversation.messages ++ more)
  unfolding step add_snapshot create_checkpoint
  messages-step (said msg) m = (msg ∷ [], messages-add msg m.conversation)
  messages-step (edited path content) m = ([], sym (append-nil _))
  messages-step checkpointed m = ([], sym (append-nil _))

  messages-steps :
      (ss : List Step) (m : RewindManager T)
      → (more : List LlmMessage) × ((steps readable ss m).conversation.messages
          ≡ m.conversation.messages ++ more)
  unfolding steps
  messages-steps [] m = ([], sym (append-nil _))
  messages-steps (s ∷ ss) m =
      let (one, e) = messages-step s m in
      let (rest, f) = messages-steps ss (step readable s m) in
      (one ++ rest, f ∙ ap (◌++ rest) e ∙ append_assoc m.conversation.messages one rest)

  files_for_checkpoint :
      (locked : String → Bool) (index : ℕ) (before : Disk) (m : RewindManager T)
      → ((p : String) → locked p ≡ false)
      → Restores index before m.checkpoints m.disk
      → ((files_for locked index true m).0 ≡ [])
        × ((p : String) → (files_for locked index true m).1 p ≡ before p)
  unfolding Restores files_for
  files_for_checkpoint locked index before m free (cp, e, h) =
      let all = restore_files_lem locked cp.files m.disk free in
      (rw (e, all, files_for), λ p. rw (e, all, files_for) (h p))

  created-Restores :
      (m : RewindManager T)
      → get_checkpoint (length m.conversation.messages) m.checkpoints ≡ none
      → Restores
          (length m.conversation.messages)
          m.disk
          (create_checkpoint readable m).checkpoints
          m.disk
  unfolding Restores create_checkpoint
  created-Restores m h =
      let index : ℕ = length m.conversation.messages in
      let (files, e) = checkpoint_after_new m.disk index m.checkpoints h in
      let cp : Checkpoint = record {
        message_index = index;
        files = map (λ s. snapshot_of readable m.disk s.path) files;
      } in
      (cp, rw e (get_checkpoint_new index m.checkpoints cp h refl), put_back-snapshots files m.disk)

  -- The program as a turn starts: the checkpoint, then the user's message.
  pub begin_turn : (String → Bool) → LlmMessage → RewindManager T → RewindManager T
  begin_turn unreadable msg m = step unreadable (said msg) (create_checkpoint unreadable m)

  -- The rewind gave the text of the message and no error, and all is as it was before the turn.
  abbrev pub Undone :
      RewindManager T
      → LlmMessage
      → Result RewindError (String × List RestoreError) × RewindManager T
      → Type 0
  Undone m msg (result, after) =
      (result ≡ ok (or_empty msg.content, []))
      × (after.conversation.messages ≡ m.conversation.messages)
      × ((p : String) → after.disk p ≡ m.disk p)

  module _ (locked : String → Bool) (m : RewindManager T) (msg : LlmMessage) (ss : List Step) where
    turn_read-Undone :
        is_user msg.role ≡ true
        → get_checkpoint (length m.conversation.messages) m.checkpoints ≡ none
        → ((p : String) → locked p ≡ false)
        → Undone m msg (
            rewind_to_message locked
              (pos (length m.conversation.messages))
              true
              (steps readable ss (begin_turn readable msg m)))
    unfolding begin_turn create_checkpoint step
    turn_read-Undone user fresh free =
        let index : ℕ = length m.conversation.messages in
        let begun : RewindManager T = step readable (said msg) (create_checkpoint readable m) in
        let (more, e) = messages-steps ss begun in
        let (errors, back) =
          files_for_checkpoint locked index m.disk (steps readable ss begun) free (
            steps-Restores ss index m.disk begun (
              step-Restores (said msg) index m.disk (create_checkpoint readable m)
                (created-Restores m fresh))) in
        let all : (steps readable ss begun).conversation.messages
            ≡ m.conversation.messages ++ msg ∷ more =
          e
          ∙ ap (◌++ more) (messages-add msg m.conversation)
          ∙ append_assoc m.conversation.messages (msg ∷ []) more in
        let here : get_elem? (steps readable ss begun).conversation.messages index ≡ some msg =
          rw all (get_elem?-append_here m.conversation.messages msg more) in
        let (r, ms, d, cps, saves) =
          (rewind_to_message_outcome locked index true (steps readable ss begun)).0 msg here user in
        (
          r ∙ ap (λ x. ok (or_empty msg.content, x)) errors,
          ms ∙ ap (take index) all ∙ take-append m.conversation.messages (msg ∷ more) index refl,
          λ p. ap (λ x. x p) d ∙ back p,
        )

    -- A turn is undone by rewinding to its user message: whatever messages it added and whatever files
    -- its tools captured and then wrote or deleted, the text of the message comes back, no file fails to
    -- be restored, the messages are those of before the turn and so is every file, if no file is locked,
    -- every file can be read, and the slot had no checkpoint before.
    pub rewind_to_message-turn :
        (unreadable : String → Bool)
        → is_user msg.role ≡ true
        → get_checkpoint (length m.conversation.messages) m.checkpoints ≡ none
        → ((p : String) → locked p ≡ false)
        → ((p : String) → unreadable p ≡ false)
        → Undone m msg (
            rewind_to_message locked
              (pos (length m.conversation.messages))
              true
              (steps unreadable ss (begin_turn unreadable msg m)))
    rewind_to_message-turn unreadable user fresh free read =
        let all_read : unreadable ≡ readable = λ i p. read p i in
        rw all_read (turn_read-Undone user fresh free)
