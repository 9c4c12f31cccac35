-- ===== src/Conversation/Restore/Again.antt =====
-- Restoring what a restore has made.
use Prim.Native.String.{◌++◌ as str_append}
use Prim.Native.Char.{code}
use text.Mathlib.Text.{starts_with}
use text.Mathlib.TextEquality.{starts_with_iff}
use text.Mathlib.TextPositions.{starts_with-append}
use text.Mathlib.TextLemmas.{cons-append, tail-eq_of_cons-eq, head-eq_of_cons-eq}
use privibe.Prelude.{
  String, ◌≡◌, ap, refl, sym, ◌∙◌, Bool, true, false, some, List, [], ◌∷◌, ◌++◌, get_last?-snoc,
  drop_last, drop_last-snoc, arith,
}
use privibe.Message.{LlmMessage, opening, tagged, vibe_warning_tag, context_refresh_tag}
use privibe.Conversation.Repair.{
  contains, fix_dangling_tool_calls, drop_dangling_step_budget_warning, is_step_budget_warning,
  is_stale_refresh, drop_stale_refresh, apply_context_refresh, context_refresh, step_budget_marker,
}
use privibe.Conversation.Repair.Answered.{fix_dangling_tool_calls_other}
use privibe.Conversation.Restore.{SavedSession, Fresh, system_message, restored_messages, refreshed}

contains_start :
    (text needle : String) → starts_with text needle ≡ true → contains text needle ≡ true
unfolding contains
contains_start String.[] needle h = h
contains_start (String.◌∷◌ ch text) needle h = ground arith

context_refresh-stale :
    (content message_id : String) → is_stale_refresh (context_refresh content message_id) ≡ true
unfolding is_stale_refresh context_refresh
context_refresh-stale content message_id =
    contains_start _ _ (starts_with-append (opening context_refresh_tag) _)

-- The two tags differ at their second character.
openings_differ :
    (u rest : String)
    → str_append "<vibe_warning>Step budget spent" u ≡ str_append "<context_refresh>" rest
    → ⊥
openings_differ u rest p =
    let q : String.◌∷◌ "<" (str_append "vibe_warning>Step budget spent" u)
        ≡ String.◌∷◌ "<" (str_append "context_refresh>" rest) =
      sym (cons-append "<" "vibe_warning>Step budget spent" u)
      ∙ p
      ∙ cons-append "<" "context_refresh>" rest in
    let r : String.◌∷◌ "v" (str_append "ibe_warning>Step budget spent" u)
        ≡ String.◌∷◌ "c" (str_append "ontext_refresh>" rest) =
      sym (cons-append "v" "ibe_warning>Step budget spent" u)
      ∙ tail-eq_of_cons-eq q
      ∙ cons-append "c" "ontext_refresh>" rest in
    let n : code "v" ≡ code "c" = ap code (head-eq_of_cons-eq r) in absurd (omega arith)

context_refresh_not_warning :
    (content message_id : String)
    → is_step_budget_warning (context_refresh content message_id) ≡ false
unfolding is_step_budget_warning context_refresh
context_refresh_not_warning content message_id =
    on_test (starts_with (tagged context_refresh_tag content) marker) refl
  where
    marker : String
    marker = str_append (opening vibe_warning_tag) step_budget_marker

    on_test :
        (b : Bool)
        → starts_with (tagged context_refresh_tag content) marker ≡ b
        → starts_with (tagged context_refresh_tag content) marker ≡ false
    on_test false e = e
    on_test true e =
        let (u, p) = (starts_with_iff (tagged context_refresh_tag content) marker).0 e in
        absurd (openings_differ u _ p)

module _ (ms : List LlmMessage) (content message_id : String) where
  -- Nothing but the refresh at its end is touched.
  repair_refreshed :
      drop_dangling_step_budget_warning
        (fix_dangling_tool_calls (ms ++ context_refresh content message_id ∷ []))
      ≡ ms ++ context_refresh content message_id ∷ []
  unfolding drop_dangling_step_budget_warning
  repair_refreshed =
      let refresh : LlmMessage = context_refresh content message_id in
      rw
        (fix_dangling_tool_calls_other (ms ++ refresh ∷ []) refresh (get_last?-snoc ms refresh)
          (unfold context_refresh in refl))
        (rw (get_last?-snoc ms refresh, drop_dangling_step_budget_warning)
          (rw context_refresh_not_warning))

  drop_stale_refresh-refreshed :
      drop_stale_refresh (ms ++ context_refresh content message_id ∷ []) ≡ ms
  unfolding drop_stale_refresh
  drop_stale_refresh-refreshed =
      rw (get_last?-snoc ms (context_refresh content message_id), drop_stale_refresh)
        (rw context_refresh-stale (drop_last-snoc ms (context_refresh content message_id)))

refreshed-some :
    (fresh : Fresh) (content : String) (ms : List LlmMessage)
    → fresh.refresh_content ≡ some content
    → refreshed fresh ms ≡ drop_stale_refresh ms ++ context_refresh content fresh.refresh_id ∷ []
unfolding refreshed apply_context_refresh
refreshed-some fresh content ms e = rw (e, refreshed)

-- Restoring a session that an earlier restore has made changes nothing but the refresh at its end:
-- all that stands before it, the tool results that were added included, is sent again as it was.
pub restored_messages_again :
    {T : Type 0} (saved again : SavedSession T) (fresh later : Fresh) (content new_content : String)
    → fresh.refresh_content ≡ some content
    → later.refresh_content ≡ some new_content
    → system_message again later ∷ again.non_system_messages ≡ restored_messages saved fresh
    → restored_messages again later
      ≡ drop_last (restored_messages saved fresh)
        ++ context_refresh new_content later.refresh_id ∷ []
unfolding restored_messages
restored_messages_again saved again fresh later content new_content e f stored =
    ap (λ ms. refreshed later (drop_dangling_step_budget_warning (fix_dangling_tool_calls ms)))
      (stored ∙ first)
    ∙ ap (refreshed later) (repair_refreshed kept content fresh.refresh_id)
    ∙ refreshed-some later new_content _ f
    ∙ ap (◌++ context_refresh new_content later.refresh_id ∷ []) (
        drop_stale_refresh-refreshed kept content fresh.refresh_id
        ∙ sym (ap drop_last first ∙ drop_last-snoc kept _))
  where
    kept : List LlmMessage
    kept = drop_stale_refresh (
        drop_dangling_step_budget_warning
          (fix_dangling_tool_calls (system_message saved fresh ∷ saved.non_system_messages)))

    first : restored_messages saved fresh ≡ kept ++ context_refresh content fresh.refresh_id ∷ []
    first = refreshed-some fresh content _ e
