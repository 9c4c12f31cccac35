-- ===== src/Rewind.antt =====
-- `RewindManager` of privibe/core/rewind/manager.py: file checkpoints and cuts of the conversation.

mod Examples
pub mod Files
pub mod Cut
pub mod Checkpoints
pub mod Turn
pub mod Boundaries
use privibe.Prelude.{
  ℕ, zero, suc, ◌+◌, ◌-◌, ◌≤◌, ◌≡◌, String, Bool, true, false, not, ◌&&◌, ◌||◌, Option, none, some,
  List, [], ◌∷◌, ◌++◌, map, length, get_elem?, get_last?, take, ltb, leb, eqb, if◌then◌else◌, ◌==◌,
  truthy, or_empty,
}
use privibe.Prelude.Int.{ℤ, pos, negsuc}
use privibe.Prelude.Exec.{Result, ok, err}
use privibe.Message.{LlmMessage, ToolCall, is_user, is_tool, is_assistant, calls_of}
use privibe.Conversation
use privibe.Conversation.{ConversationList}
use privibe.Conversation.Repair.{contains_id}
use privibe.Disk.{Bytes, Disk, FileSnapshot, store, exists, snapshot_of}

pub record Checkpoint : Type 0 where
  pub message_index : ℕ
  pub files : List FileSnapshot

pub data RewindError : Type 0 where
  invalid_message_index not_a_user_message not_a_batch_boundary : RewindError
  conversation_error : Conversation.Error → RewindError

-- What a restore could not do; the source makes a line of text of it.
pub data RestoreError : Type 0 where
  failed_to_delete failed_to_restore : String → RestoreError

-- Calls of the callbacks: the conversation is saved as it is, the session is forked.
pub data SessionEvent : Type 0 where
  messages_saved : List LlmMessage → SessionEvent
  session_reset : SessionEvent

-- The manager beside the conversation and the disk that it works on.
pub record RewindManager (T : Type 0) : Type 0 where
  pub checkpoints : List Checkpoint
  pub conversation : ConversationList T
  pub disk : Disk
  pub trace : List SessionEvent

-- Checkpoint management

pub checkpoint_after : (String → Bool) → Disk → ℕ → List Checkpoint → List Checkpoint
checkpoint_after unreadable disk index checkpoints = elim (get_last? checkpoints) [
  | none ↦ checkpoints ++ record { message_index = index; files = [] } ∷ []
  | some last ↦
      if eqb last.message_index index
      then checkpoints
      else checkpoints
        ++ record {
          message_index = index;
          files = map (λ s. snapshot_of unreadable disk s.path) last.files;
        }
          ∷ []
]

pub has_path : String → List FileSnapshot → Bool
has_path path [] = false
has_path path (s ∷ files) = s.path == path || has_path path files

pub add_to_checkpoint : FileSnapshot → Checkpoint → Checkpoint
unfolding has_path
add_to_checkpoint snapshot cp =
    if has_path snapshot.path cp.files then cp else record cp { files = cp.files ++ snapshot ∷ [] }

pub snapshot_into : FileSnapshot → List Checkpoint → List Checkpoint
unfolding add_to_checkpoint
snapshot_into snapshot = map (add_to_checkpoint snapshot)

pub get_checkpoint : ℕ → List Checkpoint → Option Checkpoint
get_checkpoint index [] = none
get_checkpoint index (cp ∷ cps) =
    if eqb cp.message_index index then some cp else get_checkpoint index cps

pub dropped_from : ℕ → List Checkpoint → List Checkpoint
dropped_from index [] = []
dropped_from index (cp ∷ cps) =
    let rest = dropped_from index cps in if ltb cp.message_index index then cp ∷ rest else rest

-- `locked` says of which files the operating system refuses to write or delete.
pub restore_files : (String → Bool) → List FileSnapshot → Disk → List RestoreError × Disk
restore_files locked [] disk = ([], disk)
restore_files locked (s ∷ files) disk =
    let refused : Bool = elim s.content [
      | none ↦ exists disk s.path && locked s.path
      | some _ ↦ locked s.path
    ] in
    let (errors, after) =
      restore_files locked files (if refused then disk else store s.path s.content disk) in
    let error : RestoreError = elim s.content [
      | none ↦ failed_to_delete s.path
      | some _ ↦ failed_to_restore s.path
    ] in
    (if refused then error ∷ errors else errors, after)

-- Whether a file differs from the checkpoint.
changed_since : (Option Bytes → Option Bytes → Bool) → List FileSnapshot → Disk → Bool
changed_since same [] disk = false
changed_since same (s ∷ files) disk =
    not (same (disk s.path) s.content) || changed_since same files disk

-- Batch boundaries

pub has_calls : List ToolCall → Bool
has_calls [] = false
has_calls (tc ∷ tcs) = true

-- Every call that has an id is answered.
all_answered : List String → List ToolCall → Bool
all_answered answered [] = true
all_answered answered (tc ∷ tcs) =
    (not (truthy tc.id) || contains_id (or_empty tc.id) answered) && all_answered answered tcs

-- `_batch_closed_at`, over the messages before the index from the newest on.
pub closed_batch : List String → List LlmMessage → Bool
unfolding has_calls all_answered
closed_batch answered [] = false
closed_batch answered (m ∷ older) =
    let further =
      closed_batch (if truthy m.tool_call_id then or_empty m.tool_call_id ∷ answered else answered)
        older in
    if is_tool m.role
    then further
    else is_assistant m.role && (has_calls (calls_of m) && all_answered answered (calls_of m))

abbrev next_is_tool : List LlmMessage → Bool
next_is_tool [] = false
next_is_tool (m ∷ ms) = is_tool m.role

-- The loop of `batch_boundaries`: `before` are the messages behind, newest first, and `index` is
-- their number.
pub boundaries_from : List LlmMessage → ℕ → List LlmMessage → List ℕ
unfolding closed_batch
boundaries_from before index [] = []
boundaries_from before index (m ∷ rest) =
    let more = boundaries_from (m ∷ before) (suc index) rest in
    if is_tool m.role && (not (next_is_tool rest) && closed_batch [] (m ∷ before))
    then suc index ∷ more
    else more

pub batch_boundaries : List LlmMessage → List ℕ
unfolding boundaries_from
batch_boundaries messages = boundaries_from [] 0 messages

pub contains_index : ℕ → List ℕ → Bool
contains_index i [] = false
contains_index i (j ∷ js) = eqb j i || contains_index i js

-- `get_rewindable_messages`, from the index `i` on.
rewindable_from : ℕ → List LlmMessage → List (ℕ × String)
rewindable_from i [] = []
rewindable_from i (m ∷ ms) =
    let rest = rewindable_from (suc i) ms in
    if is_user m.role && (truthy m.content && not m.injected)
    then (i, or_empty m.content) ∷ rest
    else rest

module _ {T : Type 0} where
  pub create_checkpoint : (String → Bool) → RewindManager T → RewindManager T
  unfolding checkpoint_after
  create_checkpoint unreadable m = record m {
    checkpoints = checkpoint_after unreadable m.disk (length m.conversation.messages) m.checkpoints;
  }

  pub add_snapshot : FileSnapshot → RewindManager T → RewindManager T
  unfolding snapshot_into
  add_snapshot snapshot m = record m { checkpoints = snapshot_into snapshot m.checkpoints }

  -- `_on_messages_reset`
  pub on_messages_reset : RewindManager T → RewindManager T
  on_messages_reset m = record m { checkpoints = [] }

  pub get_rewindable_messages : RewindManager T → List (ℕ × String)
  unfolding rewindable_from
  get_rewindable_messages m = rewindable_from 0 m.conversation.messages

  -- `same` is equality of contents.
  pub has_file_changes_at : (Option Bytes → Option Bytes → Bool) → ℕ → RewindManager T → Bool
  unfolding changed_since get_checkpoint
  has_file_changes_at same index m = elim (get_checkpoint index m.checkpoints) [
    | none ↦ false
    | some cp ↦ changed_since same cp.files m.disk
  ]

  -- The files as `_truncate_to` leaves them, and what could not be restored.
  pub files_for : (String → Bool) → ℕ → Bool → RewindManager T → List RestoreError × Disk
  unfolding restore_files get_checkpoint
  files_for locked index restores m =
      if restores
      then (elim (get_checkpoint index m.checkpoints) [
        | none ↦ ([], m.disk)
        | some cp ↦ restore_files locked cp.files m.disk
      ])
      else ([], m.disk)

  -- The conversation cut with its reset hooks switched off: the checkpoints are kept here.
  pub truncate_to :
      (String → Bool)
      → ℕ
      → Bool
      → RewindManager T
      → Result RewindError (List RestoreError) × RewindManager T
  unfolding files_for dropped_from
  truncate_to locked index restores m =
      let (errors, disk) = files_for locked index restores m in
      let (r, conversation) =
        Conversation.no_reset_hooks
          (Conversation.rewind (pos (length m.conversation.messages - index))) m.conversation in
      let kept : RewindManager T = record {
        checkpoints = dropped_from index m.checkpoints;
        conversation = conversation;
        disk = disk;
        trace = m.trace ++ messages_saved m.conversation.messages ∷ [];
      } in
      elim r [
        | err e ↦ (err (conversation_error e), kept)
        | ok _ ↦ (ok errors, record kept { trace = kept.trace ++ session_reset ∷ [] })
      ]

  pub rewind_to_user :
      (String → Bool)
      → ℕ
      → Bool
      → LlmMessage
      → RewindManager T
      → Result RewindError (String × List RestoreError) × RewindManager T
  unfolding truncate_to
  rewind_to_user locked index restores msg m =
      if not (is_user msg.role)
      then (err not_a_user_message, m)
      else (let (r, m') = truncate_to locked index restores m in
          (elim r [ ok errors ↦ ok (or_empty msg.content, errors) | err e ↦ err e ], m'))

  pub rewind_to_message :
      (String → Bool)
      → ℤ
      → Bool
      → RewindManager T
      → Result RewindError (String × List RestoreError) × RewindManager T
  unfolding rewind_to_user
  rewind_to_message locked (negsuc n) restores m = (err invalid_message_index, m)
  rewind_to_message locked (pos n) restores m = elim (get_elem? m.conversation.messages n) [
    | none ↦ (err invalid_message_index, m)
    | some msg ↦ rewind_to_user locked n restores msg m
  ]

  pub rewind_to_index :
      (String → Bool)
      → ℕ
      → Bool
      → RewindManager T
      → Result RewindError (List RestoreError) × RewindManager T
  unfolding batch_boundaries contains_index truncate_to
  rewind_to_index locked index restores m =
      if contains_index index (batch_boundaries m.conversation.messages)
      then truncate_to locked index restores m
      else (err not_a_batch_boundary, m)
