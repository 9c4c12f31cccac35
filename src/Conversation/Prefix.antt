-- ===== src/Conversation/Prefix.antt =====
-- The prefix that the server's KV cache holds: message 0, the tools and the wire flag.
use privibe.Prelude.{
  ℕ, zero, suc, ◌-◌, ◌≡◌, Bool, true, false, Option, some, List, [], ◌∷◌, ◌++◌, length, get_elem?,
  take, leb, arith,
}
use privibe.Prelude.Int.{pos}
use privibe.Prelude.Exec.{ok}
use privibe.Message.{LlmMessage, is_system}
use privibe.Conversation
use privibe.Conversation.{ConversationList, leading_system}
use privibe.Conversation.Ops.{Op, add, rewind, silently, without_hooks, apply, run}

module _ {A : Type 0} where
  first-append :
      (xs ys : List A) (s : A) → get_elem? xs 0 ≡ some s → get_elem? (xs ++ ys) 0 ≡ some s
  first-append [] ys s h = cc
  first-append (x ∷ xs) ys s h = h

  first-take :
      (n : ℕ) (xs : List A) (s : A)
      → get_elem? xs 0 ≡ some s
      → leb (length xs) n ≡ false
      → get_elem? (take (length xs - n) xs) 0 ≡ some s
  first-take n [] s h lt = cc
  first-take n (x ∷ xs) s h lt =
      let e : length (x ∷ xs) - n ≡ suc (length xs - n) = ground arith in rw e h

leading_system_lem :
    (ms : List LlmMessage) (s : LlmMessage)
    → is_system s.role ≡ true
    → get_elem? ms 0 ≡ some s
    → leading_system ms ≡ true
leading_system_lem [] s sys h = cc
leading_system_lem (m ∷ ms) s sys h = ground arith

module _ {T : Type 0} where
  -- The first message of the conversation is `s`.
  abbrev pub StartsWith : LlmMessage → ConversationList T → Type 0
  StartsWith s c = get_elem? c.messages 0 ≡ some s

  module _ (s : LlmMessage) (sys : is_system s.role ≡ true) where
    rewind_top-StartsWith :
        (n : ℕ) (c : ConversationList T)
        → StartsWith s c
        → StartsWith s (Conversation.rewind_top n c).1
    unfolding Conversation.rewind_top
    rewind_top-StartsWith n c h =
        ground (arith, leading_system_lem c.messages s sys, first-take n c.messages s)

    apply-StartsWith :
        (op : Op T) (c : ConversationList T) → StartsWith s c → StartsWith s (apply op c)
    unfolding apply
    apply-StartsWith (add m) c h = ground (arith, first-append c.messages (m ∷ []) s)
    apply-StartsWith (rewind (pos (suc n))) c h = rewind_top-StartsWith (suc n) c h
    apply-StartsWith (rewind (pos zero)) c h = h
    apply-StartsWith (silently op) c h = apply-StartsWith op (record c { is_silent = true }) h
    apply-StartsWith (without_hooks op) c h = apply-StartsWith op (record c { reset_hooks = [] }) h
    apply-StartsWith _ c h = ground arith

    -- A system message at the start of the conversation stays there through every sequence of
    -- operations, those that raise included.
    pub run-StartsWith :
        (ops : List (Op T)) (c : ConversationList T) → StartsWith s c → StartsWith s (run ops c)
    unfolding run
    run-StartsWith [] c h = h
    run-StartsWith (op ∷ ops) c h = run-StartsWith ops (apply op c) (apply-StartsWith op c h)

module _ {T : Type 0} where
  -- The tools and the wire flag that are frozen in `c` are those of `d`.
  record Keeps (c d : ConversationList T) : Type 0 where
    tools : (ts : List T) → c.tools ≡ some ts → d.tools ≡ some ts
    wire : (b : Bool) → c.wire_per_message_effort ≡ some b → d.wire_per_message_effort ≡ some b

  apply-Keeps : (op : Op T) (c : ConversationList T) → Keeps c (apply op c)
  unfolding apply
  apply-Keeps (silently op) c =
      let k = apply-Keeps op (record c { is_silent = true }) in
      record { tools = λ ts e. k.tools ts e; wire = λ b e. k.wire b e }
  apply-Keeps (without_hooks op) c =
      let k = apply-Keeps op (record c { reset_hooks = [] }) in
      record { tools = λ ts e. k.tools ts e; wire = λ b e. k.wire b e }
  apply-Keeps (rewind (pos (suc n))) c = record {
    tools = λ ts e. ground arith;
    wire = λ b e. ground arith;
  }
  apply-Keeps (rewind (pos zero)) c = record { tools = λ ts e. e; wire = λ b e. e }
  apply-Keeps _ c = record { tools = λ ts e. ground arith; wire = λ b e. ground arith }

  run-Keeps : (ops : List (Op T)) (c : ConversationList T) → Keeps c (run ops c)
  unfolding run
  run-Keeps [] c = record { tools = λ ts e. e; wire = λ b e. e }
  run-Keeps (op ∷ ops) c =
      let k = apply-Keeps op c in
      let r = run-Keeps ops (apply op c) in
      record { tools = λ ts e. r.tools ts (k.tools ts e); wire = λ b e. r.wire b (k.wire b e) }

  -- What the first request advertises, every later request advertises, whatever operations of the class
  -- other than restore come between them and whatever the provider answers by then.
  pub tools_for_request_stable :
      (c : ConversationList T) (live later : Option (List T)) (ops : List (Op T)) (ts : List T)
      → (Conversation.tools_for_request live c).0 ≡ ok ts
      → (Conversation.tools_for_request later (run ops (Conversation.tools_for_request live c).1)).0
        ≡ ok ts
  unfolding Conversation.tools_for_request
  tools_for_request_stable c live later ops ts h =
      ground (arith, (run-Keeps ops (Conversation.tools_for_request live c).1).tools ts)

  -- The wire flag that the first request uses is the one that every later request uses, if no restore
  -- comes between them.
  pub wire_for_request_stable :
      (c : ConversationList T) (live later : Option Bool) (ops : List (Op T)) (b : Bool)
      → (Conversation.wire_per_message_effort_for_request live c).0 ≡ ok b
      → (Conversation.wire_per_message_effort_for_request later
          (run ops (Conversation.wire_per_message_effort_for_request live c).1)).0
        ≡ ok b
  unfolding Conversation.wire_per_message_effort_for_request
  wire_for_request_stable c live later ops b h =
      ground
        (arith, (run-Keeps ops (Conversation.wire_per_message_effort_for_request live c).1).wire b)
