-- ===== src/History/Examples.antt =====
-- The history of a few prompts.
use privibe.Prelude.{◌≡◌, refl, true, false, none, some, List, [], ◌∷◌, arith, none-ne-some}
use privibe.History.{HistoryManager, is_command, get_previous, get_next, step_back}
use privibe.History.Navigate.{get_next-get_previous}
use privibe.History.Kept
use privibe.History.Kept.{Op, IsValid, run, history_run-IsValid}

abbrev two_prompts : HistoryManager
two_prompts = record {
  entries = (97 ∷ []) ∷ (98 ∷ []) ∷ [];
  max_entries = 2;
  current_index = none;
  temp_input = [];
  saved = [];
}

get_next-get_previous_example :
    get_next (get_previous (99 ∷ []) two_prompts).1 ≡ (some (99 ∷ []), two_prompts)
unfolding get_previous step_back
get_next-get_previous_example = get_next-get_previous (99 ∷ []) two_prompts refl (λ e. cc)

abbrev typed : List Op
typed =
    Kept.add true (32 ∷ 99 ∷ 10 ∷ [])
    ∷ Kept.get_previous (100 ∷ [])
    ∷ Kept.add false (47 ∷ 104 ∷ [])
    ∷ Kept.get_next
    ∷ []

history_run-IsValid_example : IsValid (run typed two_prompts)
unfolding IsValid is_command
history_run-IsValid_example =
    history_run-IsValid typed two_prompts
      (omega arith, omega arith, (refl, (refl, tt)), λ i e. absurd (none-ne-some e))
