-- ===== src/Rewind/Boundaries/Closed.antt =====
-- The batches that `_batch_closed_at` of privibe/core/rewind/manager.py takes to be closed.
use privibe.Prelude.{
  ◌≡◌, refl, sym, ap, ◌∙◌, String, true, false, ◌&&◌, ◌||◌, Option, none, some, List, [], ◌∷◌, ◌++◌,
  ◌⊎◌, inl, inr, Bool-cases, All, eq_iff, ◌==◌, truthy, or_empty, arith, if◌then◌else◌,
}
use privibe.Message.{LlmMessage, ToolCall, Role, is_tool, is_assistant, calls_of}
use privibe.Conversation.Repair.{contains_id}
use privibe.Rewind.{closed_batch, has_calls, all_answered}

-- A tool result for the call with that id is among the messages.
abbrev pub AnsweredIn : Option String → List LlmMessage → Type 0
AnsweredIn id [] = ⊥
AnsweredIn id (m ∷ ms) = (m.tool_call_id ≡ id) ⊎ AnsweredIn id ms

-- Messages, the newest first, that begin with tool results, behind which stands the assistant message
-- whose calls they answer, every one that has an id.
pub record ClosedBatch (messages : List LlmMessage) : Type 0 where
  pub results : List LlmMessage
  pub asker : LlmMessage
  pub older : List LlmMessage
  pub shape : messages ≡ results ++ asker ∷ older
  pub all_results : All (λ m. is_tool m.role ≡ true) results
  pub asks : is_assistant asker.role ≡ true
  pub calls : has_calls (calls_of asker) ≡ true
  pub answered : All (λ tc. truthy tc.id ≡ true → AnsweredIn tc.id results) (calls_of asker)

-- The same, where some ids were answered by messages that are newer still.
abbrev Answered : List String → List LlmMessage → ToolCall → Type 0
Answered ids results tc =
    truthy tc.id ≡ true → (contains_id (or_empty tc.id) ids ≡ true) ⊎ AnsweredIn tc.id results

record ClosedBy (ids : List String) (messages : List LlmMessage) : Type 0 where
  results : List LlmMessage
  asker : LlmMessage
  older : List LlmMessage
  shape : messages ≡ results ++ asker ∷ older
  all_results : All (λ m. is_tool m.role ≡ true) results
  asks : is_assistant asker.role ≡ true
  calls : has_calls (calls_of asker) ≡ true
  answered : All (Answered ids results) (calls_of asker)

abbrev with_id : Option String → List String → List String
with_id id ids = if truthy id then or_empty id ∷ ids else ids

with_id_or :
    (id mid : Option String) (ids : List String)
    → truthy id ≡ true
    → contains_id (or_empty id) (with_id mid ids) ≡ true
    → (mid ≡ id) ⊎ (contains_id (or_empty id) ids ≡ true)
unfolding contains_id
with_id_or none mid ids t h = cc
with_id_or (some x) none ids t h = inr h
with_id_or (some x) (some y) ids t h = elim (Bool-cases (truthy (some y))) [
  | inl named ↦
      let either : (x == y || contains_id x ids) ≡ true = rw named at h in
      elim (Bool-cases (x == y)) [
        | inl same ↦ inl (ap some (sym ((eq_iff x y).0 same)))
        | inr other ↦ inr (rw other at either)
      ]
  | inr nameless ↦ inr (rw nameless at h)
]

with_id_head :
    (id : Option String) (ids : List String)
    → truthy id ≡ true
    → contains_id (or_empty id) (with_id id ids) ≡ true
unfolding contains_id
with_id_head none ids t = cc
with_id_head (some x) ids t = let same = (eq_iff x x).1 refl in rw (t, same) refl

with_id_keeps :
    (x : String) (mid : Option String) (ids : List String)
    → contains_id x ids ≡ true
    → contains_id x (with_id mid ids) ≡ true
unfolding contains_id
with_id_keeps x mid ids h = elim (Bool-cases (truthy mid)) [
  | inl named ↦
      rw named
        (elim (Bool-cases (x == or_empty mid)) [ inl same ↦ rw same refl | inr other ↦ rw other h ])
  | inr nameless ↦ rw nameless h
]

All-map :
    {P Q : ToolCall → Type 0} (tcs : List ToolCall)
    → ((tc : ToolCall) → P tc → Q tc)
    → All P tcs
    → All Q tcs
All-map [] f h = tt
All-map (tc ∷ tcs) f h = (f tc h.0, All-map tcs f h.1)

all_answered-All :
    (ids : List String) (tcs : List ToolCall)
    → all_answered ids tcs ≡ true
    → All (Answered ids []) tcs
unfolding all_answered
all_answered-All ids [] h = tt
all_answered-All ids (tc ∷ tcs) h =
    (λ t. inl (ground arith), all_answered-All ids tcs (ground arith))

All-all_answered :
    (ids : List String) (tcs : List ToolCall)
    → All (Answered ids []) tcs
    → all_answered ids tcs ≡ true
unfolding all_answered
All-all_answered ids [] h = refl
All-all_answered ids (tc ∷ tcs) h = elim (Bool-cases (truthy tc.id)) [
  | inl named ↦ elim (h.0 named) [
    | inl found ↦ rw (named, found) (All-all_answered ids tcs h.1)
    | inr never ↦ absurd never
  ]
  | inr nameless ↦ rw nameless (All-all_answered ids tcs h.1)
]

assistant_no_tool : (r : Role) → is_assistant r ≡ true → is_tool r ≡ false
assistant_no_tool Role.assistant h = refl
assistant_no_tool Role.system h = refl
assistant_no_tool Role.user h = refl
assistant_no_tool Role.tool h = cc

closed_batch-ClosedBy :
    (ids : List String) (ms : List LlmMessage) → closed_batch ids ms ≡ true → ClosedBy ids ms
unfolding closed_batch
closed_batch-ClosedBy ids [] h = cc
closed_batch-ClosedBy ids (m ∷ ms) h = elim (Bool-cases (is_tool m.role)) [
  | inl tool ↦
      let c = closed_batch-ClosedBy (with_id m.tool_call_id ids) ms (rw tool at h) in
      record {
        results = m ∷ c.results;
        asker = c.asker;
        older = c.older;
        shape = ap (λ x. m ∷ x) c.shape;
        all_results = (tool, c.all_results);
        asks = c.asks;
        calls = c.calls;
        answered =
            All-map (calls_of c.asker)
              (λ tc f t. elim (f t) [
                | inl found ↦ elim (with_id_or tc.id m.tool_call_id ids t found) [
                  | inl same ↦ inr (inl same)
                  | inr old ↦ inl old
                ]
                | inr behind ↦ inr (inr behind)
              ])
              c.answered;
      }
  | inr other ↦
      let last : (is_assistant m.role && (has_calls (calls_of m) && all_answered ids (calls_of m)))
          ≡ true =
        rw other at h in
      record {
        results = [];
        asker = m;
        older = ms;
        shape = refl;
        all_results = tt;
        asks = ground arith;
        calls = ground arith;
        answered = all_answered-All ids (calls_of m) (ground arith);
      }
]

closed_batch_holds :
    (ids : List String) (results : List LlmMessage) (asker : LlmMessage) (older : List LlmMessage)
    → All (λ m. is_tool m.role ≡ true) results
    → is_assistant asker.role ≡ true
    → has_calls (calls_of asker) ≡ true
    → All (Answered ids results) (calls_of asker)
    → closed_batch ids (results ++ asker ∷ older) ≡ true
unfolding closed_batch
closed_batch_holds ids [] asker older tools asks calls answered =
    rw (assistant_no_tool asker.role asks, asks, calls) (All-all_answered ids _ answered)
closed_batch_holds ids (m ∷ results) asker older (tool, tools) asks calls answered = rw tool (
    closed_batch_holds (with_id m.tool_call_id ids) results asker older tools asks calls (
      All-map (calls_of asker)
        (λ tc f t. elim (f t) [
          | inl old ↦ inl (with_id_keeps (or_empty tc.id) m.tool_call_id ids old)
          | inr (inl same) ↦ inl (
              ap (λ i. contains_id (or_empty tc.id) (with_id i ids)) same
              ∙ with_id_head tc.id ids t)
          | inr (inr behind) ↦ inr behind
        ])
        answered))

-- The loop finds exactly the closed batches.
pub closed_batch-ClosedBatch : (ms : List LlmMessage) → closed_batch [] ms ≡ true → ClosedBatch ms
unfolding contains_id
closed_batch-ClosedBatch ms h =
    let c = closed_batch-ClosedBy [] ms h in
    record {
      results = c.results;
      asker = c.asker;
      older = c.older;
      shape = c.shape;
      all_results = c.all_results;
      asks = c.asks;
      calls = c.calls;
      answered =
          All-map (calls_of c.asker)
            (λ tc f t. elim (f t) [ inl none_yet ↦ absurd (ground arith) | inr found ↦ found ])
            c.answered;
    }

pub ClosedBatch-closed_batch : (ms : List LlmMessage) → ClosedBatch ms → closed_batch [] ms ≡ true
ClosedBatch-closed_batch ms c =
    ap (closed_batch []) c.shape
    ∙ closed_batch_holds [] c.results c.asker c.older c.all_results c.asks c.calls
        (All-map (calls_of c.asker) (λ tc f t. inr (f t)) c.answered)
