-- ===== src/Rewind/Cut.antt =====
-- What a rewind does to the conversation and to the checkpoints.
use privibe.Prelude.{
  ℕ, zero, suc, ◌-◌, or_empty, ◌≤◌, ◌<◌, ◌≡◌, ◌∙◌, ap, refl, Bool, true, false, ◌&&◌, none, some,
  List, [], ◌∷◌, ◌++◌, length, get_elem?, take, ltb, leb, arith, Bool-cases, inl, inr, All, ltb→lt,
  String, append_assoc,
}
use privibe.Prelude.Int.{pos}
use privibe.Prelude.Exec.{ok, err}
use privibe.Message.{LlmMessage, Role, is_user, is_system}
use privibe.Conversation.{leading_system}
use privibe.Conversation.Rewind.{no_reset_hooks-rewind}
use privibe.Rewind.{
  Checkpoint, RewindManager, RestoreError, not_a_user_message, invalid_message_index,
  messages_saved, session_reset, dropped_from, files_for, truncate_to, rewind_to_user,
  rewind_to_message,
}

user_not_system : (r : Role) → is_user r ≡ true → is_system r ≡ false
user_not_system Role.user h = refl
user_not_system Role.system h = cc
user_not_system Role.assistant h = cc
user_not_system Role.tool h = cc

pub get_elem?-lt :
    {A : Type 0} (xs : List A) (i : ℕ) (x : A) → get_elem? xs i ≡ some x → i < length xs
get_elem?-lt [] i x h = cc
get_elem?-lt (y ∷ xs) zero x h = omega arith
get_elem?-lt (y ∷ xs) (suc i) x h = omega (arith, get_elem?-lt xs i x h)

get_elem?-ge : {A : Type 0} (xs : List A) (i : ℕ) → length xs ≤ i → get_elem? xs i ≡ none
get_elem?-ge [] i h = refl
get_elem?-ge (x ∷ xs) zero h = absurd (omega arith)
get_elem?-ge (x ∷ xs) (suc i) h = get_elem?-ge xs i (omega arith)

-- A user message is not removed together with a leading system message.
user_spares_system :
    (ms : List LlmMessage) (i : ℕ) (msg : LlmMessage)
    → get_elem? ms i ≡ some msg
    → is_user msg.role ≡ true
    → (leading_system ms && leb (length ms) (length ms - i)) ≡ false
user_spares_system [] i msg e h = cc
user_spares_system (m ∷ ms) zero msg e h = ground (arith, user_not_system m.role)
user_spares_system (m ∷ ms) (suc i) msg e h = ground (arith, get_elem?-lt ms i msg)

dropped_from-below :
    (index : ℕ) (cps : List Checkpoint)
    → All (λ cp. cp.message_index < index) (dropped_from index cps)
unfolding dropped_from
dropped_from-below index [] = tt
dropped_from-below index (cp ∷ cps) = elim (Bool-cases (ltb cp.message_index index)) [
  | inl below ↦ rw below (ltb→lt cp.message_index index below, dropped_from-below index cps)
  | inr above ↦ rw above (dropped_from-below index cps)
]

module _ {T : Type 0} where
  module _ (locked : String → Bool) (i : ℕ) (restores : Bool) (m : RewindManager T) where
    pub truncate_lem :
        (leading_system m.conversation.messages
            && leb (length m.conversation.messages) (length m.conversation.messages - i))
          ≡ false
        → i ≤ length m.conversation.messages
        → ((truncate_to locked i restores m).0 ≡ ok (files_for locked i restores m).0)
          × ((truncate_to locked i restores m).1.conversation.messages
              ≡ take i m.conversation.messages)
          × ((truncate_to locked i restores m).1.disk ≡ (files_for locked i restores m).1)
          × ((truncate_to locked i restores m).1.checkpoints ≡ dropped_from i m.checkpoints)
          × ((truncate_to locked i restores m).1.trace
              ≡ m.trace ++ messages_saved m.conversation.messages ∷ session_reset ∷ [])
    unfolding truncate_to
    truncate_lem spared le =
        let (r, k) =
          no_reset_hooks-rewind (length m.conversation.messages - i) m.conversation spared in
        (
          rw (r, truncate_to) refl,
          rw (r, truncate_to) (k ∙ ap (λ n. take n m.conversation.messages) (omega arith)),
          rw (r, truncate_to) refl,
          rw (r, truncate_to) refl,
          rw (r, truncate_to) (append_assoc m.trace _ _),
        )

    rewind_to_user_message :
        (msg : LlmMessage) (errors : List RestoreError)
        → get_elem? m.conversation.messages i ≡ some msg
        → is_user msg.role ≡ true
        → (truncate_to locked i restores m).0 ≡ ok errors
        → rewind_to_message locked (pos i) restores m
          ≡ (ok (or_empty msg.content, errors), (truncate_to locked i restores m).1)
    unfolding rewind_to_message rewind_to_user
    rewind_to_user_message msg errors e u r = rw (e, u, r, rewind_to_message, rewind_to_user) refl

    -- Rewinding to a user message never fails: it gives back the text of the message, the
    -- conversation ends right before it, every checkpoint kept is an earlier one, and the session was
    -- saved whole and then forked. At any other index it raises and changes nothing.
    pub rewind_to_message_outcome :
        ((msg : LlmMessage)
          → get_elem? m.conversation.messages i ≡ some msg
          → is_user msg.role ≡ true
          → ((rewind_to_message locked (pos i) restores m).0
              ≡ ok (or_empty msg.content, (files_for locked i restores m).0))
            × ((rewind_to_message locked (pos i) restores m).1.conversation.messages
                ≡ take i m.conversation.messages)
            × ((rewind_to_message locked (pos i) restores m).1.disk
                ≡ (files_for locked i restores m).1)
            × All
                (λ cp. cp.message_index < i)
                (rewind_to_message locked (pos i) restores m).1.checkpoints
            × ((rewind_to_message locked (pos i) restores m).1.trace
                ≡ m.trace ++ messages_saved m.conversation.messages ∷ session_reset ∷ []))
        × ((msg : LlmMessage)
            → get_elem? m.conversation.messages i ≡ some msg
            → is_user msg.role ≡ false
            → rewind_to_message locked (pos i) restores m ≡ (err not_a_user_message, m))
        × (length m.conversation.messages ≤ i
            → rewind_to_message locked (pos i) restores m ≡ (err invalid_message_index, m))
    unfolding rewind_to_message rewind_to_user
    rewind_to_message_outcome = (
      λ msg e u.
          let (r, ms, d, cps, tr) =
            truncate_lem (user_spares_system m.conversation.messages i msg e u)
              (omega (arith, get_elem?-lt m.conversation.messages i msg e)) in
          let all = rewind_to_user_message msg _ e u r in
          (
            ap (λ x. x.0) all,
            ap (λ x. x.1.conversation.messages) all ∙ ms,
            ap (λ x. x.1.disk) all ∙ d,
            rw (all, cps) (dropped_from-below i m.checkpoints),
            ap (λ x. x.1.trace) all ∙ tr,
          ),
      λ msg e u. rw (e, rewind_to_message, u, rewind_to_user) refl,
      λ le. rw (get_elem?-ge m.conversation.messages i le, rewind_to_message) refl,
    )
