-- ===== src/Rewind/Boundaries.antt =====
-- `rewind_to_index` cuts only where a batch of tool results ends.
pub mod Closed
use mathlib.Core.Path.{subst}
use privibe.Prelude.{
  ℕ, zero, suc, ◌+◌, ◌-◌, ◌≤◌, ◌<◌, ◌≡◌, refl, String, Bool, true, false, ◌&&◌, not, some, List, [],
  ◌∷◌, length, get_elem?, take, leb, eqb, eqb_iff, arith, Bool-cases, inl, inr,
}
use privibe.Prelude.Exec.{ok, err}
use privibe.Message.{LlmMessage, is_tool}
use privibe.Conversation.{leading_system}
use privibe.Rewind.{
  RewindManager, not_a_batch_boundary, closed_batch, next_is_tool, boundaries_from,
  batch_boundaries, contains_index, files_for, rewind_to_index,
}
use privibe.Rewind.Cut.{truncate_lem, get_elem?-lt}
use privibe.Prelude.{ap, ◌≡◌, some-injective, if◌then◌else◌}
use privibe.Rewind.Boundaries.Closed.{
  ClosedBatch, closed_batch-ClosedBatch, ClosedBatch-closed_batch,
}
use privibe.Prelude.{◌∙◌}

-- The first messages of a list, the newest first, with what is behind them.
abbrev pub newest_first : List LlmMessage → ℕ → List LlmMessage → List LlmMessage
newest_first before zero ms = before
newest_first before (suc n) [] = before
newest_first before (suc n) (m ∷ ms) = newest_first (m ∷ before) n ms

-- The message right before `b` is a tool result, and the one at `b`, if any, is not; and the tool
-- results that end before `b` answer every call of the assistant message before them.
abbrev pub EndsBatch : List LlmMessage → List LlmMessage → ℕ → Type 0
EndsBatch before ms zero = ⊥
EndsBatch before ms (suc i) =
    (m : LlmMessage) × (get_elem? ms i ≡ some m)
    × (is_tool m.role ≡ true)
    × ((next : LlmMessage) → get_elem? ms (suc i) ≡ some next → is_tool next.role ≡ false)
    × ClosedBatch (newest_first before (suc i) ms)

next_is_tool_lem :
    (ms : List LlmMessage) (next : LlmMessage)
    → next_is_tool ms ≡ false
    → get_elem? ms 0 ≡ some next
    → is_tool next.role ≡ false
next_is_tool_lem [] next h e = cc
next_is_tool_lem (m ∷ ms) next h e = ground arith

no_tool_next :
    (ms : List LlmMessage)
    → ((next : LlmMessage) → get_elem? ms 0 ≡ some next → is_tool next.role ≡ false)
    → next_is_tool ms ≡ false
no_tool_next [] h = refl
no_tool_next (m ∷ ms) h = h m refl

later :
    (m : LlmMessage) (before rest : List LlmMessage) (index b : ℕ)
    → (k : ℕ) × (b ≡ suc index + k) × EndsBatch (m ∷ before) rest k
    → (k : ℕ) × (b ≡ index + k) × EndsBatch before (m ∷ rest) k
later m before rest index b (zero, e, h) = elim h [ ]
later m before rest index b (suc k, e, h) = (suc (suc k), omega (arith, e), h)

boundaries_from-EndsBatch :
    (before rest : List LlmMessage) (index b : ℕ)
    → contains_index b (boundaries_from before index rest) ≡ true
    → (k : ℕ) × (b ≡ index + k) × EndsBatch before rest k
unfolding contains_index boundaries_from
boundaries_from-EndsBatch before [] index b h = cc
boundaries_from-EndsBatch before (m ∷ rest) index b h =
    elim (Bool-cases
      (is_tool m.role && (not (next_is_tool rest) && closed_batch [] (m ∷ before)))) [
        | inl here ↦ elim (Bool-cases (eqb (suc index) b)) [
          | inl same ↦ (
            1,
            omega (arith, (eqb_iff (suc index) b).0 same),
            (
              m,
              refl,
              ground arith,
              λ next e. next_is_tool_lem rest next (ground arith) e,
              closed_batch-ClosedBatch (m ∷ before) (ground arith),
            ),
          )
          | inr other ↦
              later m before rest index b
                (boundaries_from-EndsBatch (m ∷ before) rest (suc index) b (ground arith))
        ]
        | inr skipped ↦
            later m before rest index b
              (boundaries_from-EndsBatch (m ∷ before) rest (suc index) b (ground arith))
      ]

contains_index-more :
    (test : Bool) (i b : ℕ) (more : List ℕ)
    → contains_index b more ≡ true
    → contains_index b (if test then i ∷ more else more) ≡ true
unfolding contains_index
contains_index-more true i b more h = ground arith
contains_index-more false i b more h = h

boundary_here :
    (tool next closed : Bool) (i b : ℕ) (more : List ℕ)
    → tool ≡ true
    → next ≡ false
    → closed ≡ true
    → eqb i b ≡ true
    → contains_index b (if tool && (not next && closed) then i ∷ more else more) ≡ true
unfolding contains_index
boundary_here tool next closed i b more t n c e = rw (t, n, c, e) refl

EndsBatch-boundaries_from :
    (before rest : List LlmMessage) (index b k : ℕ)
    → b ≡ index + k
    → EndsBatch before rest k
    → contains_index b (boundaries_from before index rest) ≡ true
unfolding contains_index boundaries_from
EndsBatch-boundaries_from before rest index b zero e h = elim h [ ]
EndsBatch-boundaries_from before [] index b (suc k) e (m, absent, tool, next, closed) = cc
EndsBatch-boundaries_from before (m ∷ rest) index b (suc zero) e (m', at, tool, next, closed) =
    let same : m.role ≡ m'.role = ap (λ x. x.role) (some-injective at) in
    let here : eqb (suc index) b ≡ true = (eqb_iff (suc index) b).1 (omega (arith, e)) in
    let no_tool = no_tool_next rest next in
    let ends = ClosedBatch-closed_batch (m ∷ before) closed in
    boundary_here (is_tool m.role) (next_is_tool rest) (closed_batch [] (m ∷ before)) (suc index) b
      (boundaries_from (m ∷ before) (suc index) rest) (ap is_tool same ∙ tool) no_tool ends here
EndsBatch-boundaries_from before (m ∷ rest) index b (suc (suc k)) e (m', at, tool, next, closed) =
    contains_index-more
      (is_tool m.role && (not (next_is_tool rest) && closed_batch [] (m ∷ before))) (suc index) b
      (boundaries_from (m ∷ before) (suc index) rest)
      (EndsBatch-boundaries_from (m ∷ before) rest (suc index) b (suc k) (omega (arith, e))
        (m', at, tool, next, closed))

EndsBatch-bounds : (ms : List LlmMessage) (b : ℕ) → EndsBatch [] ms b → (0 < b) × (b ≤ length ms)
EndsBatch-bounds ms zero h = elim h [ ]
EndsBatch-bounds ms (suc i) (m, e, tool, next, closed) =
    (omega arith, omega (arith, get_elem?-lt ms i m e))

cut_spares_system : (x : Bool) (n b : ℕ) → 0 < b → b ≤ n → (x && leb n (n - b)) ≡ false
cut_spares_system x n b h le = ground arith

module _ {T : Type 0} (locked : String → Bool) (index : ℕ) (restores : Bool)
    (m : RewindManager T) where
  -- Rewinding to an index succeeds if a batch of tool results ends there that answers every call of
  -- its assistant message: the conversation then ends on the last of these results, and the first message
  -- cut, if there is one, was no tool result. At any other index it raises and changes nothing.
  pub rewind_to_index_outcome :
      (EndsBatch [] m.conversation.messages index
        → ((rewind_to_index locked index restores m).0 ≡ ok (files_for locked index restores m).0)
          × ((rewind_to_index locked index restores m).1.conversation.messages
              ≡ take index m.conversation.messages)
          × ((rewind_to_index locked index restores m).1.disk
              ≡ (files_for locked index restores m).1))
      × (¬ EndsBatch [] m.conversation.messages index
          → rewind_to_index locked index restores m ≡ (err not_a_batch_boundary, m))
  unfolding rewind_to_index batch_boundaries
  rewind_to_index_outcome = (
    λ ends.
        let h =
          EndsBatch-boundaries_from [] m.conversation.messages 0 index index (omega arith) ends in
        let (pos, le) = EndsBatch-bounds m.conversation.messages index ends in
        let (r, ms, d, cps, saves) =
          truncate_lem locked index restores m
            (cut_spares_system (leading_system m.conversation.messages)
              (length m.conversation.messages) index pos le)
            le in
        (rw (rewind_to_index, h) r, rw (rewind_to_index, h) ms, rw (rewind_to_index, h) d),
    λ other. elim (Bool-cases (contains_index index (batch_boundaries m.conversation.messages))) [
      | inl h ↦
          let (k, e, ends) = boundaries_from-EndsBatch [] m.conversation.messages 0 index h in
          absurd (other (subst (EndsBatch [] m.conversation.messages) (omega (arith, e)) ends))
      | inr h ↦ rw (rewind_to_index, h) refl
    ],
  )
