-- ===== src/History/Navigate.antt =====
-- A step forward undoes a step back.
use privibe.Prelude.{
  ℕ, zero, suc, ◌<◌, ◌≡◌, ◌≢◌, refl, false, ap, sym, lt→ltb, Option, none, some, List, [], ◌∷◌,
  length, get_elem?, ltb, arith,
}
use privibe.History.{Text, HistoryManager, reset_navigation, step_back, get_previous, get_next}

-- The walk stands on an entry, or has not begun and holds no input.
abbrev pub IsOnEntry : Option ℕ → HistoryManager → Type 0
IsOnEntry none h = h.temp_input ≡ []
IsOnEntry (some i) h = i < length h.entries

-- What the prompt shows: the entry that the walk stands on, or what the user has typed.
abbrev pub shown : Text → Option ℕ → HistoryManager → Option Text
shown typed none h = some typed
shown typed (some i) h = get_elem? h.entries i

not_below : (n : ℕ) → ltb (suc n) (suc n) ≡ false
not_below n = ground arith

abbrev from : List Text → Option ℕ → HistoryManager → HistoryManager
from entries index h = record h { entries = entries; current_index = index }

navigate_from :
    (typed : Text) (entries : List Text) (index : Option ℕ) (h : HistoryManager)
    → IsOnEntry index (from entries index h)
    → (get_previous typed (from entries index h)).0 ≢ none
    → get_next (get_previous typed (from entries index h)).1
      ≡ (shown typed index (from entries index h), from entries index h)
unfolding get_previous get_next step_back reset_navigation
navigate_from typed [] index h on found = absurd (found refl)
navigate_from typed (e ∷ es) none h on found =
    rw (not_below (length es))
      (ap (λ t. (some typed, record (from (e ∷ es) none h) { temp_input = t })) (sym on))
navigate_from typed (e ∷ es) (some zero) h on found = absurd (found refl)
navigate_from typed (e ∷ es) (some (suc i)) h on found =
    rw (lt→ltb (suc i) (length (e ∷ es)) on) refl

-- After a step back that found an entry, a step forward shows again what the prompt showed before, and
-- the manager is as it was.
pub get_next-get_previous :
    (typed : Text) (h : HistoryManager)
    → IsOnEntry h.current_index h
    → (get_previous typed h).0 ≢ none
    → get_next (get_previous typed h).1 ≡ (shown typed h.current_index h, h)
get_next-get_previous typed h on found = navigate_from typed h.entries h.current_index h on found
