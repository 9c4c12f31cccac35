-- ===== src/Wire/Kept.antt =====
-- What the messages of a request keep of the stored ones.
use mathlib.Core.Path.{subst}
use privibe.Prelude.{
  ℕ, length, String, Bool, true, false, Option, List, [], ◌∷◌, ◌++◌, ◌≡◌, refl, ◌∙◌, sym, ◌&&◌,
  ◌||◌, get_last?, drop_last, Bool-cases, Option-cases, inl, inr, snoc_of_get_last?, append_assoc,
  append-nil, or-false, if◌then◌else◌, truthy,
}
use privibe.Message.{LlmMessage, is_user, is_assistant}
use privibe.Conversation.Restore.{any_effort}
use privibe.Wire.{
  or_text, placeholder, merged, insert_step, insert_loop,
  insert_between_consecutive_assistant_messages, merge_step, merge_loop,
  merge_consecutive_user_messages, merged_messages,
}
use privibe.Wire.Turns.{and-true}

-- The messages that are not the user's.
unfoldable pub not_of_user : List LlmMessage → List LlmMessage
not_of_user [] = []
not_of_user (m ∷ ms) = let rest = not_of_user ms in if is_user m.role then rest else m ∷ rest

not_of_user-append :
    (xs ys : List LlmMessage) → not_of_user (xs ++ ys) ≡ not_of_user xs ++ not_of_user ys
unfolding not_of_user
not_of_user-append [] ys = refl
not_of_user-append (x ∷ xs) ys = elim (Bool-cases (is_user x.role)) [
  | inl user ↦ rw (user, not_of_user-append xs ys) refl
  | inr other ↦ rw (other, not_of_user-append xs ys) refl
]

not_of_user-snoc :
    (xs : List LlmMessage) (u : LlmMessage)
    → is_user u.role ≡ true
    → not_of_user (xs ++ u ∷ []) ≡ not_of_user xs
unfolding not_of_user
not_of_user-snoc xs u user = rw (not_of_user-append xs (u ∷ []), user) (append-nil (not_of_user xs))

any_effort-append :
    (xs ys : List LlmMessage) → any_effort (xs ++ ys) ≡ (any_effort xs || any_effort ys)
unfolding any_effort
any_effort-append [] ys = refl
any_effort-append (x ∷ xs) ys = elim (Bool-cases (truthy x.reasoning_effort)) [
  | inl some_effort ↦ rw some_effort refl
  | inr no_effort ↦ rw (no_effort, any_effort-append xs ys) refl
]

truthy-or_text : (a b : Option String) → truthy (or_text a b) ≡ (truthy a || truthy b)
truthy-or_text a b = elim (Bool-cases (truthy a)) [
  | inl given ↦ rw given given
  | inr missing ↦ rw missing refl
]

regroup : (x a b : Bool) → (x || ((a || b) || false)) ≡ ((x || (a || false)) || (b || false))
regroup true a b = refl
regroup false true b = refl
regroup false false b = refl

-- The same messages that are not the user's, and an effort in both or in neither.
abbrev Same : List LlmMessage → List LlmMessage → Type 0
Same xs ys = (not_of_user xs ≡ not_of_user ys) × (any_effort xs ≡ any_effort ys)

Same-append : (xs ys zs : List LlmMessage) → Same xs ys → Same (xs ++ zs) (ys ++ zs)
Same-append xs ys zs h = (
  rw (not_of_user-append xs zs, not_of_user-append ys zs, h.0) refl,
  rw (any_effort-append xs zs, any_effort-append ys zs, h.1) refl,
)

Same-trans : (xs ys zs : List LlmMessage) → Same xs ys → Same ys zs → Same xs zs
Same-trans xs ys zs h k = (h.0 ∙ k.0, h.1 ∙ k.1)

-- The placeholder is the user's and has no effort.
Same-placeholder : (id : String) (xs : List LlmMessage) → Same (xs ++ placeholder id ∷ []) xs
unfolding placeholder any_effort
Same-placeholder id xs = (
  not_of_user-snoc xs (placeholder id) refl,
  any_effort-append xs (placeholder id ∷ []) ∙ or-false (any_effort xs),
)

-- One user message that has an effort if one of the two has.
Same-merged :
    (id : String) (ys : List LlmMessage) (a m : LlmMessage)
    → is_user a.role ≡ true
    → is_user m.role ≡ true
    → Same (ys ++ merged id a m ∷ []) ((ys ++ a ∷ []) ++ m ∷ [])
unfolding merged any_effort
Same-merged id ys a m user user' = (
  not_of_user-snoc ys (merged id a m) refl
      ∙ sym (not_of_user-snoc (ys ++ a ∷ []) m user' ∙ not_of_user-snoc ys a user),
  rw
      (
        any_effort-append ys (merged id a m ∷ []),
        any_effort-append (ys ++ a ∷ []) (m ∷ []),
        any_effort-append ys (a ∷ []),
        truthy-or_text a.reasoning_effort m.reasoning_effort,
      )
      (regroup (any_effort ys) (truthy a.reasoning_effort) (truthy m.reasoning_effort)),
)

module _ (fresh : ℕ → String) where
  insert_step-Same :
      (result : List LlmMessage) (msg : LlmMessage)
      → Same (insert_step fresh result msg) (result ++ msg ∷ [])
  unfolding insert_step
  insert_step-Same result msg = elim (Option-cases (get_last? result)) [
    | inl nothing ↦ rw (insert_step, nothing) (refl, refl)
    | inr (last, found) ↦ elim (Bool-cases (is_assistant last.role && is_assistant msg.role)) [
      | inl both ↦
          let u : LlmMessage = placeholder (fresh (length result)) in
          rw (insert_step, found, both)
            (Same-append (result ++ u ∷ []) result (msg ∷ [])
              (Same-placeholder (fresh (length result)) result))
      | inr apart ↦ rw (insert_step, found, apart) (refl, refl)
    ]
  ]

  merge_step-Same :
      (result : List LlmMessage) (msg : LlmMessage)
      → Same (merge_step fresh result msg) (result ++ msg ∷ [])
  unfolding merge_step
  merge_step-Same result msg = elim (Option-cases (get_last? result)) [
    | inl nothing ↦ rw (merge_step, nothing) (refl, refl)
    | inr (last, found) ↦ elim (Bool-cases (is_user last.role && is_user msg.role)) [
      | inl both ↦
          let users = and-true (is_user last.role) (is_user msg.role) both in
          let ys = drop_last result in
          let id = fresh (length result) in
          rw (merge_step, found, both)
            (subst (λ xs. Same (ys ++ merged id last msg ∷ []) (xs ++ msg ∷ []))
              (sym (snoc_of_get_last? result last found))
              (Same-merged id ys last msg users.0 users.1))
      | inr apart ↦ rw (merge_step, found, apart) (refl, refl)
    ]
  ]

  -- One step of a loop, and the rest.
  Same-step :
      (stepped result messages final : List LlmMessage) (msg : LlmMessage)
      → Same final (stepped ++ messages)
      → Same stepped (result ++ msg ∷ [])
      → Same final (result ++ msg ∷ messages)
  Same-step stepped result messages final msg rest step =
      Same-trans final (stepped ++ messages) (result ++ msg ∷ messages) rest (
        subst (Same (stepped ++ messages)) (append_assoc result (msg ∷ []) messages)
          (Same-append stepped (result ++ msg ∷ []) messages step))

  insert_loop-Same :
      (result messages : List LlmMessage)
      → Same (insert_loop fresh result messages) (result ++ messages)
  unfolding insert_loop
  insert_loop-Same result [] = rw (append-nil result) (refl, refl)
  insert_loop-Same result (msg ∷ messages) =
      let stepped = insert_step fresh result msg in
      Same-step stepped result messages (insert_loop fresh stepped messages) msg
        (insert_loop-Same stepped messages) (insert_step-Same result msg)

  merge_loop-Same :
      (result messages : List LlmMessage)
      → Same (merge_loop fresh result messages) (result ++ messages)
  unfolding merge_loop
  merge_loop-Same result [] = rw (append-nil result) (refl, refl)
  merge_loop-Same result (msg ∷ messages) =
      let stepped = merge_step fresh result msg in
      Same-step stepped result messages (merge_loop fresh stepped messages) msg
        (merge_loop-Same stepped messages) (merge_step-Same result msg)

-- The messages that a request is built from have the stored messages that are not the user's, unchanged
-- and in their order, and some message of theirs has an effort just when a stored one has.
pub merged_messages-kept :
    (fresh_in_merge fresh_in_insert : ℕ → String) (messages : List LlmMessage)
    → (not_of_user (merged_messages fresh_in_merge fresh_in_insert messages) ≡ not_of_user messages)
      × (any_effort (merged_messages fresh_in_merge fresh_in_insert messages) ≡ any_effort messages)
unfolding merged_messages insert_between_consecutive_assistant_messages
    merge_consecutive_user_messages
merged_messages-kept in_merge in_insert messages =
    let merge = merge_loop in_merge [] messages in
    Same-trans (insert_loop in_insert [] merge) merge messages (insert_loop-Same in_insert [] merge)
      (merge_loop-Same in_merge [] messages)
