-- ===== src/Conversation/Rewind.antt =====
-- What `rewind` removes, and when it refuses.
use privibe.Prelude.{
  ℕ, zero, false, ◌&&◌, leb, suc, ◌+◌, ◌-◌, ◌≤◌, ◌<◌, ◌≡◌, ◌↔◌, ◌∙◌, sym, ap, refl, ◌≢◌, true, List,
  [], ◌∷◌, ◌++◌, length, length-append, take, take-append, take_all, arith, append_assoc,
  append-nil,
}
use privibe.Prelude.Int.{pos}
use privibe.Prelude.Exec.{ok, err}
use privibe.Message.{LlmMessage}
use privibe.Conversation
use privibe.Conversation.{
  ConversationList, Error, system_message_is_immutable, leading_system, reset_fired,
}

module _ {T : Type 0} where
  unfoldable pub add_all : List LlmMessage → ConversationList T → ConversationList T
  add_all [] c = c
  add_all (m ∷ ms) c = add_all ms (Conversation.add m c)

  pub messages-add :
      (m : LlmMessage) (c : ConversationList T)
      → (Conversation.add m c).messages ≡ c.messages ++ m ∷ []
  unfolding Conversation.add
  messages-add m c = ground arith

  messages-add_all :
      (ms : List LlmMessage) (c : ConversationList T) → (add_all ms c).messages ≡ c.messages ++ ms
  unfolding add_all
  messages-add_all [] c = rw append-nil
  messages-add_all (m ∷ ms) c =
      messages-add_all ms (Conversation.add m c)
      ∙ rw messages-add (append_assoc c.messages (m ∷ []) ms)

  rewind_top-append :
      (d : ConversationList T) (x : LlmMessage) (xs ys : List LlmMessage)
      → d.messages ≡ (x ∷ xs) ++ ys
      → ((Conversation.rewind_top (length ys) d).0 ≡ ok tt)
        × ((Conversation.rewind_top (length ys) d).1.messages ≡ x ∷ xs)
  unfolding Conversation.rewind_top
  rewind_top-append d x xs ys e =
      let n : length d.messages ≡ suc (length xs) + length ys =
        ap length e ∙ length-append (x ∷ xs) ys in
      let t : take (length d.messages - length ys) d.messages ≡ x ∷ xs =
        rw e (take-append (x ∷ xs) ys _ (omega (arith, length-append xs ys))) in
      ground arith

  -- Removing as many messages as were added gives back the messages of before, if there was one.
  pub rewind-add_all :
      (ms : List LlmMessage) (c : ConversationList T)
      → c.messages ≢ []
      → ((Conversation.rewind (pos (length ms)) (add_all ms c)).0 ≡ ok tt)
        × ((Conversation.rewind (pos (length ms)) (add_all ms c)).1.messages ≡ c.messages)
  rewind-add_all [] c h = unfold add_all Conversation.rewind in (refl, refl)
  rewind-add_all (m ∷ ms) c h = on_messages c.messages refl h
    where
      on_messages :
          (old : List LlmMessage)
          → c.messages ≡ old
          → old ≢ []
          → ((Conversation.rewind (pos (suc (length ms))) (add_all (m ∷ ms) c)).0 ≡ ok tt)
            × ((Conversation.rewind (pos (suc (length ms))) (add_all (m ∷ ms) c)).1.messages
                ≡ c.messages)
      on_messages [] e ne = absurd (ne refl)
      on_messages (x ∷ xs) e ne =
          let all : (add_all (m ∷ ms) c).messages ≡ (x ∷ xs) ++ m ∷ ms =
            messages-add_all (m ∷ ms) c ∙ ap (◌++ m ∷ ms) e in
          let (r, k) = rewind_top-append (add_all (m ∷ ms) c) x xs (m ∷ ms) all in
          unfold Conversation.rewind in (r, k ∙ sym e)

  rewind_kept :
      (n : ℕ) (c : ConversationList T)
      → (leading_system c.messages && leb (length c.messages) n) ≡ false
      → ((Conversation.rewind (pos n) c).0 ≡ ok tt)
        × ((Conversation.rewind (pos n) c).1.messages ≡ take (length c.messages - n) c.messages)
  unfolding Conversation.rewind Conversation.rewind_top Conversation.fire_reset_hooks
  rewind_kept zero c h = (refl, sym (take_all c.messages _ (omega arith)))
  rewind_kept (suc n) c h = (rw h refl, rw h refl)

  pub no_reset_hooks-rewind :
      (n : ℕ) (c : ConversationList T)
      → (leading_system c.messages && leb (length c.messages) n) ≡ false
      → ((Conversation.no_reset_hooks (Conversation.rewind (pos n)) c).0 ≡ ok tt)
        × ((Conversation.no_reset_hooks (Conversation.rewind (pos n)) c).1.messages
            ≡ take (length c.messages - n) c.messages)
  unfolding Conversation.no_reset_hooks
  no_reset_hooks-rewind n c h = rewind_kept n (record c { reset_hooks = [] }) h

  -- `rewind` raises exactly when it would remove a leading system message, and then changes nothing;
  -- otherwise it leaves the oldest messages, as many fewer as it was asked to remove.
  pub rewind_outcome :
      (n : ℕ) (c : ConversationList T)
      → (((Conversation.rewind (pos n) c).0 ≡ err system_message_is_immutable)
          ↔ ((0 < n) × (leading_system c.messages ≡ true) × (length c.messages ≤ n)))
        × ((Conversation.rewind (pos n) c).0 ≡ err system_message_is_immutable
            → (Conversation.rewind (pos n) c).1 ≡ c)
        × ((Conversation.rewind (pos n) c).0 ≡ ok tt
            → (Conversation.rewind (pos n) c).1.messages ≡ take (length c.messages - n) c.messages)
  unfolding Conversation.rewind
  rewind_outcome zero c = (
    (λ e. cc, λ h. absurd (omega arith)),
    λ e. refl,
    λ e. sym (take_all c.messages _ (omega arith)),
  )
  rewind_outcome (suc n) c =
      ((λ e. ground arith, λ h. ground arith), λ e. ground arith, λ e. ground arith)
