-- ===== src/Conversation/Restore/Stored.antt =====
-- What `restore` keeps of the stored history, what it drops and what it adds.
use privibe.Prelude.{
  String, ◌≡◌, ap, refl, sym, ◌∙◌, true, Option, none, some, List, [], ◌∷◌, ◌++◌, ◌⊎◌, append-nil,
  append_assoc, All, Option-cases, inl, inr,
}
use privibe.Message.{LlmMessage, is_tool}
use privibe.Conversation.Repair.{
  no_response, fix_dangling_tool_calls, drop_dangling_step_budget_warning, drop_stale_refresh,
  apply_context_refresh, context_refresh,
}
use privibe.Conversation.Restore.{SavedSession, Fresh, system_message, restored_messages, refreshed}
use privibe.Conversation.Restore.Repaired.{
  IsWriteUpRequest, HoldsRefresh, dropped_warning, dropped_stale, answer_stays, EndsInAnswer,
  fixed_cases,
}

abbrev pub Refreshes : Fresh → Type 0
Refreshes fresh = (content : String) × (fresh.refresh_content ≡ some content)

-- What may be lost of the end of the history: a write-up request that was left unanswered, and, where a
-- fresh refresh takes its place, the stale one before it.
abbrev pub Lost : Fresh → List LlmMessage → Type 0
Lost fresh [] = Unit
Lost fresh (m ∷ []) = IsWriteUpRequest m ⊎ (Refreshes fresh × HoldsRefresh m)
Lost fresh (r ∷ w ∷ []) = Refreshes fresh × HoldsRefresh r × IsWriteUpRequest w
Lost fresh (r ∷ w ∷ m ∷ ms) = ⊥

abbrev pub refresh_message : Fresh → List LlmMessage
refresh_message fresh = elim fresh.refresh_content [
  | none ↦ []
  | some content ↦ context_refresh content fresh.refresh_id ∷ []
]

-- `now` is `stored` without what is lost of its end, then tool results, then the refresh if one is made.
pub record KeepsStored (stored : List LlmMessage) (fresh : Fresh) (now : List LlmMessage)
    : Type 0 where
  pub kept : List LlmMessage
  pub lost : List LlmMessage
  pub answers : List LlmMessage
  pub before : stored ≡ kept ++ lost
  pub after : now ≡ kept ++ (answers ++ refresh_message fresh)
  pub all_results : All (λ m. is_tool m.role ≡ true) answers
  pub only_lost : Lost fresh lost

-- What is lost before the refresh is made.
abbrev LostFirst : List LlmMessage → Type 0
LostFirst [] = Unit
LostFirst (w ∷ []) = IsWriteUpRequest w
LostFirst (w ∷ m ∷ ms) = ⊥

LostFirst-Lost : (fresh : Fresh) (lost : List LlmMessage) → LostFirst lost → Lost fresh lost
LostFirst-Lost fresh [] h = tt
LostFirst-Lost fresh (w ∷ []) h = inl h
LostFirst-Lost fresh (w ∷ m ∷ ms) h = elim h [ ]

stale-Lost :
    (fresh : Fresh) (r : LlmMessage) (lost : List LlmMessage)
    → Refreshes fresh
    → HoldsRefresh r
    → LostFirst lost
    → Lost fresh (r ∷ lost)
stale-Lost fresh r [] made held h = inr (made, held)
stale-Lost fresh r (w ∷ []) made held h = (made, held, h)
stale-Lost fresh r (w ∷ m ∷ ms) made held h = elim h [ ]

module _ (stored : List LlmMessage) (fresh : Fresh) where
  refreshed-KeepsStored :
      (kept lost : List LlmMessage)
      → stored ≡ kept ++ lost
      → LostFirst lost
      → KeepsStored stored fresh (refreshed fresh kept)
  unfolding refreshed apply_context_refresh
  refreshed-KeepsStored kept lost e h = on_content fresh.refresh_content refl
    where
      on_content :
          (o : Option String)
          → fresh.refresh_content ≡ o
          → KeepsStored stored fresh (refreshed fresh kept)
      on_content none f = record {
        kept = kept;
        lost = lost;
        answers = [];
        before = e;
        after = rw (f, refreshed) (sym (append-nil kept));
        all_results = tt;
        only_lost = LostFirst-Lost fresh lost h;
      }
      on_content (some content) f = elim (dropped_stale kept) [
        | inl nothing ↦ record {
          kept = kept;
          lost = lost;
          answers = [];
          before = e;
          after = rw (f, refreshed, nothing) refl;
          all_results = tt;
          only_lost = LostFirst-Lost fresh lost h;
        }
        | inr (r, split, held) ↦ record {
          kept = drop_stale_refresh kept;
          lost = r ∷ lost;
          answers = [];
          before = e ∙ ap (◌++ lost) split ∙ append_assoc (drop_stale_refresh kept) (r ∷ []) lost;
          after = rw (f, refreshed) refl;
          all_results = tt;
          only_lost = stale-Lost fresh r lost (content, f) held h;
        }
      ]

  answered-KeepsStored :
      (answers : List LlmMessage)
      → EndsInAnswer answers
      → KeepsStored stored fresh
          (refreshed fresh (drop_dangling_step_budget_warning (stored ++ answers)))
  unfolding refreshed apply_context_refresh
  answered-KeepsStored answers (front, tc, e, all) =
      let whole : stored ++ answers ≡ (stored ++ front) ++ no_response tc ∷ [] =
        ap (stored ++◌) e ∙ sym (append_assoc stored front (no_response tc ∷ [])) in
      let (no_warning, no_refresh) = answer_stays (stored ++ front) tc in
      let same : drop_dangling_step_budget_warning (stored ++ answers) ≡ stored ++ answers =
        ap drop_dangling_step_budget_warning whole ∙ no_warning ∙ sym whole in
      let stays : drop_stale_refresh (stored ++ answers) ≡ stored ++ answers =
        ap drop_stale_refresh whole ∙ no_refresh ∙ sym whole in
      record {
        kept = stored;
        lost = [];
        answers = answers;
        before = sym (append-nil stored);
        after = elim (Option-cases fresh.refresh_content) [
          | inl f ↦ rw (f, refreshed, same) (ap (stored ++◌) (sym (append-nil answers)))
          | inr (content, f) ↦
              rw (f, refreshed, same, stays)
                (append_assoc stored answers (context_refresh content fresh.refresh_id ∷ []))
        ];
        all_results = all;
        only_lost = tt;
      }

  repaired-KeepsStored :
      KeepsStored stored fresh
        (refreshed fresh (drop_dangling_step_budget_warning (fix_dangling_tool_calls stored)))
  repaired-KeepsStored = elim (fixed_cases stored) [
    | inr (answers, e, ends) ↦ rw e (answered-KeepsStored answers ends)
    | inl e ↦ rw e (elim (dropped_warning stored) [
      | inl same ↦ rw same (refreshed-KeepsStored stored [] (sym (append-nil stored)) tt)
      | inr (w, split, request) ↦
          refreshed-KeepsStored (drop_dangling_step_budget_warning stored) (w ∷ []) split request
    ])
  ]

-- The restored conversation is the stored one, the system message and then the stored messages, with
-- tool results and, if one is made, the fresh refresh added at its end. What it loses of that end is at
-- most a write-up request of the step budget and, if a refresh is made, a message that holds an older
-- one.
pub restored_messages-KeepsStored :
    {T : Type 0} (saved : SavedSession T) (fresh : Fresh)
    → KeepsStored
        (system_message saved fresh ∷ saved.non_system_messages)
        fresh
        (restored_messages saved fresh)
unfolding restored_messages
restored_messages-KeepsStored saved fresh =
    repaired-KeepsStored (system_message saved fresh ∷ saved.non_system_messages) fresh
