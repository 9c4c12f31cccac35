-- ===== src/Wire/Turns.antt =====
-- The turns of a request.
use privibe.Prelude.{
  ℕ, length, String, Bool, true, false, none, some, List, [], ◌∷◌, ◌++◌, ◌≡◌, refl, ap, ◌∙◌, sym,
  ◌&&◌, get_last?, drop_last, Bool-cases, Option-cases, inl, inr, snoc_of_get_last?, append_assoc,
  and-false, append-nil,
}
use mathlib.Core.Path.{subst}
use privibe.Message.{LlmMessage, Role, is_user, is_assistant}
use privibe.Wire.{
  placeholder, merged, insert_step, insert_loop, insert_between_consecutive_assistant_messages,
  merge_step, merge_loop, merge_consecutive_user_messages, merged_messages,
}

abbrev pub Next : (Role → Bool) → LlmMessage → List LlmMessage → Type 0
Next p m [] = Unit
Next p m (n ∷ ns) = (p m.role && p n.role) ≡ false

-- No two consecutive messages have a role of the kind p.
abbrev pub Apart : (Role → Bool) → List LlmMessage → Type 0
Apart p [] = Unit
Apart p (m ∷ ms) = Next p m ms × Apart p ms

module _ (p : Role → Bool) where
  Apart-snoc :
      (ys : List LlmMessage) (a m : LlmMessage)
      → Apart p (ys ++ a ∷ [])
      → (p a.role && p m.role) ≡ false
      → Apart p ((ys ++ a ∷ []) ++ m ∷ [])
  Apart-snoc [] a m h e = (e, (tt, tt))
  Apart-snoc (y ∷ []) a m h e = (h.0, Apart-snoc [] a m h.1 e)
  Apart-snoc (y ∷ z ∷ ys) a m h e = (h.0, Apart-snoc (z ∷ ys) a m h.1 e)

  -- The last message may be any of its kind.
  Apart-last :
      (ys : List LlmMessage) (a b : LlmMessage)
      → p a.role ≡ p b.role
      → Apart p (ys ++ a ∷ [])
      → Apart p (ys ++ b ∷ [])
  Apart-last [] a b e h = (tt, tt)
  Apart-last (y ∷ []) a b e h = (ap (p y.role &&◌) (sym e) ∙ h.0, (tt, tt))
  Apart-last (y ∷ z ∷ ys) a b e h = (h.0, Apart-last (z ∷ ys) a b e h.1)

  -- Any message may stand between two that are not of the kind.
  Apart-between :
      (ys : List LlmMessage) (a u m : LlmMessage) (ms : List LlmMessage)
      → Apart p (ys ++ a ∷ m ∷ ms)
      → p a.role ≡ false
      → p m.role ≡ false
      → Apart p (ys ++ a ∷ u ∷ m ∷ ms)
  Apart-between [] a u m ms h ea em =
      (ap (◌&& p u.role) ea, (ap (p u.role &&◌) em ∙ and-false (p u.role), h.1))
  Apart-between (y ∷ []) a u m ms h ea em = (h.0, Apart-between [] a u m ms h.1 ea em)
  Apart-between (y ∷ z ∷ ys) a u m ms h ea em = (h.0, Apart-between (z ∷ ys) a u m ms h.1 ea em)

placeholder-user : (id : String) → (placeholder id).role ≡ Role.user
unfolding placeholder
placeholder-user id = refl

merged-user : (id : String) (prev msg : LlmMessage) → (merged id prev msg).role ≡ Role.user
unfolding merged
merged-user id prev msg = refl

user_not_assistant : (r : Role) → is_user r ≡ true → is_assistant r ≡ false
user_not_assistant Role.user h = refl
user_not_assistant Role.system h = refl
user_not_assistant Role.tool h = refl
user_not_assistant Role.assistant h = cc

pub and-true : (a b : Bool) → (a && b) ≡ true → (a ≡ true) × (b ≡ true)
and-true true true h = (refl, refl)
and-true true false h = cc
and-true false b h = cc

assistant_not_user : (r : Role) → is_assistant r ≡ true → is_user r ≡ false
assistant_not_user Role.assistant h = refl
assistant_not_user Role.system h = refl
assistant_not_user Role.tool h = refl
assistant_not_user Role.user h = cc

pub nil_of_get_last? : (xs : List LlmMessage) → get_last? xs ≡ none → xs ≡ []
nil_of_get_last? [] h = refl
nil_of_get_last? (x ∷ []) h = cc
nil_of_get_last? (x ∷ y ∷ xs) h = let rest = nil_of_get_last? (y ∷ xs) h in cc

module _ (p : Role → Bool) where
  Apart-append :
      (result : List LlmMessage) (last msg : LlmMessage)
      → get_last? result ≡ some last
      → Apart p result
      → (p last.role && p msg.role) ≡ false
      → Apart p (result ++ msg ∷ [])
  Apart-append result last msg found h e =
      let split = snoc_of_get_last? result last found in
      subst (λ xs. Apart p (xs ++ msg ∷ [])) (sym split)
        (Apart-snoc p (drop_last result) last msg (subst (Apart p) split h) e)

module _ (fresh : ℕ → String) where
  merge_step-Apart :
      (result : List LlmMessage) (msg : LlmMessage)
      → Apart is_user result
      → Apart is_user (merge_step fresh result msg)
  unfolding merge_step
  merge_step-Apart result msg h = elim (Option-cases (get_last? result)) [
    | inl nothing ↦ rw (merge_step, nothing, nil_of_get_last? result nothing) (tt, tt)
    | inr (last, found) ↦ elim (Bool-cases (is_user last.role && is_user msg.role)) [
      | inl both ↦
          rw (merge_step, found, both)
            (Apart-last is_user (drop_last result) last (merged (fresh (length result)) last msg)
              ((and-true (is_user last.role) (is_user msg.role) both).0)
              (subst (Apart is_user) (snoc_of_get_last? result last found) h))
      | inr apart ↦
          rw (merge_step, found, apart) (Apart-append is_user result last msg found h apart)
    ]
  ]

  insert_step-Apart :
      (result : List LlmMessage) (msg : LlmMessage)
      → Apart is_assistant result
      → Apart is_assistant (insert_step fresh result msg)
  unfolding insert_step
  insert_step-Apart result msg h = elim (Option-cases (get_last? result)) [
    | inl nothing ↦ rw (insert_step, nothing, nil_of_get_last? result nothing) (tt, tt)
    | inr (last, found) ↦ elim (Bool-cases (is_assistant last.role && is_assistant msg.role)) [
      | inl both ↦
          let u : LlmMessage = placeholder (fresh (length result)) in
          let between = Apart-append is_assistant result last u found h (
            ap (λ r. is_assistant last.role && is_assistant r)
              (placeholder-user (fresh (length result)))
            ∙ and-false (is_assistant last.role)) in
          rw (insert_step, found, both) (Apart-snoc is_assistant result u msg between refl)
      | inr apart ↦
          rw (insert_step, found, apart) (Apart-append is_assistant result last msg found h apart)
    ]
  ]

  -- The placeholder parts no users, since it stands between assistants.
  insert_step_users :
      (result : List LlmMessage) (msg : LlmMessage) (rest : List LlmMessage)
      → Apart is_user (result ++ msg ∷ rest)
      → Apart is_user (insert_step fresh result msg ++ rest)
  unfolding insert_step
  insert_step_users result msg rest h = elim (Option-cases (get_last? result)) [
    | inl nothing ↦ rw (insert_step, nothing, append_assoc result (msg ∷ []) rest) h
    | inr (last, found) ↦ elim (Bool-cases (is_assistant last.role && is_assistant msg.role)) [
      | inl both ↦
          let agents = and-true (is_assistant last.role) (is_assistant msg.role) both in
          let split = snoc_of_get_last? result last found in
          let u : LlmMessage = placeholder (fresh (length result)) in
          rw
            (
              insert_step,
              found,
              both,
              append_assoc (result ++ u ∷ []) (msg ∷ []) rest,
              append_assoc result (u ∷ []) (msg ∷ rest),
            )
            (subst (λ xs. Apart is_user (xs ++ u ∷ msg ∷ rest)) (sym split)
              (subst (Apart is_user)
                (sym (append_assoc (drop_last result) (last ∷ []) (u ∷ msg ∷ rest)))
                (Apart-between is_user (drop_last result) last u msg rest
                  (subst (Apart is_user)
                    (ap (◌++ msg ∷ rest) split
                      ∙ append_assoc (drop_last result) (last ∷ []) (msg ∷ rest))
                    h)
                  (assistant_not_user last.role agents.0) (assistant_not_user msg.role agents.1))))
      | inr apart ↦ rw (insert_step, found, apart, append_assoc result (msg ∷ []) rest) h
    ]
  ]

  merge_loop-Apart :
      (result messages : List LlmMessage)
      → Apart is_user result
      → Apart is_user (merge_loop fresh result messages)
  unfolding merge_loop
  merge_loop-Apart result [] h = h
  merge_loop-Apart result (msg ∷ messages) h =
      merge_loop-Apart (merge_step fresh result msg) messages (merge_step-Apart result msg h)

  insert_loop-Apart :
      (result messages : List LlmMessage)
      → Apart is_assistant result
      → Apart is_user (result ++ messages)
      → Apart is_user (insert_loop fresh result messages)
        × Apart is_assistant (insert_loop fresh result messages)
  unfolding insert_loop
  insert_loop-Apart result [] h users = (subst (Apart is_user) (append-nil result) users, h)
  insert_loop-Apart result (msg ∷ messages) h users =
      insert_loop-Apart (insert_step fresh result msg) messages (insert_step-Apart result msg h)
        (insert_step_users result msg messages users)

-- In the messages that a request is built from no two consecutive ones are of the user, and no two
-- consecutive ones of the assistant.
pub merged_messages-Apart :
    (fresh_in_merge fresh_in_insert : ℕ → String) (messages : List LlmMessage)
    → Apart is_user (merged_messages fresh_in_merge fresh_in_insert messages)
      × Apart is_assistant (merged_messages fresh_in_merge fresh_in_insert messages)
unfolding merged_messages insert_between_consecutive_assistant_messages
    merge_consecutive_user_messages
merged_messages-Apart in_merge in_insert messages =
    insert_loop-Apart in_insert [] (merge_loop in_merge [] messages) tt
      (merge_loop-Apart in_merge [] messages tt)
