-- ===== src/History/Kept.antt =====
-- What the history holds after any sequence of its operations.
use privibe.Prelude.{
  ℕ, zero, suc, ◌-◌, ◌≤◌, ◌<◌, ◌≡◌, ap, refl, Bool, true, false, Option, none, some, List, [], ◌∷◌,
  ◌++◌, length, length-drop, drop, ltb, arith, ltb→lt, some-injective, none-ne-some, Bool-cases,
  inl, inr, All,
}
use privibe.History
use privibe.History.{
  Text, HistoryManager, same_text, strip, is_command, last_entries, save_history, repeats_last,
  capped, append_entry, step_back,
}

pub data Op : Type 0 where
  add : Bool → Text → Op
  get_previous : Text → Op
  get_next reset_navigation : Op

unfoldable pub apply : Op → HistoryManager → HistoryManager
apply (add writable text) h = History.add writable text h
apply (get_previous typed) h = (History.get_previous typed h).1
apply get_next h = (History.get_next h).1
apply reset_navigation h = History.reset_navigation h

unfoldable pub run : List Op → HistoryManager → HistoryManager
unfolding apply
run [] h = h
run (op ∷ ops) h = run ops (apply op h)

-- An entry is a prompt: not empty and no command.
abbrev pub IsPrompt : Text → Type 0
IsPrompt [] = ⊥
IsPrompt (c ∷ cs) = is_command (c ∷ cs) ≡ false

-- There are no more entries than allowed, all are prompts, and the walk stands on one of them, or
-- would go back to the newest.
unfoldable pub IsValid : HistoryManager → Type 0
IsValid h =
    (0 < h.max_entries)
    × (length h.entries ≤ h.max_entries)
    × All IsPrompt h.entries
    × ((i : ℕ) → h.current_index ≡ some i → i < length h.entries)

drop-All : (P : Text → Type 0) (n : ℕ) (xs : List Text) → All P xs → All P (drop n xs)
drop-All P zero xs ps = ps
drop-All P (suc n) [] ps = tt
drop-All P (suc n) (x ∷ xs) (p, ps) = drop-All P n xs ps

snoc-All : (P : Text → Type 0) (xs : List Text) (x : Text) → All P xs → P x → All P (xs ++ x ∷ [])
snoc-All P [] x ps p = (p, tt)
snoc-All P (y ∷ xs) x (q, qs) p = (q, snoc-All P xs x qs p)

length-capped : (max : ℕ) (xs : List Text) → 0 < max → length (capped max xs) ≤ max
unfolding capped last_entries
length-capped zero xs h = absurd (omega arith)
length-capped (suc n) xs h = ground (arith, length-drop (length xs - suc n) xs)

capped-All : (P : Text → Type 0) (max : ℕ) (xs : List Text) → All P xs → All P (capped max xs)
unfolding capped last_entries
capped-All P zero xs ps = elim (Bool-cases (ltb 0 (length xs))) [
  | inl a ↦ rw a ps
  | inr b ↦ rw b ps
]
capped-All P (suc n) xs ps = elim (Bool-cases (ltb (suc n) (length xs))) [
  | inl long ↦ rw long (drop-All P (length xs - suc n) xs ps)
  | inr short ↦ rw short ps
]

pushed-IsValid :
    (writable : Bool) (text : Text) (h : HistoryManager)
    → IsPrompt text
    → IsValid h
    → IsValid (
        History.reset_navigation (
          save_history writable
            (record h { entries = capped h.max_entries (h.entries ++ text ∷ []) })))
unfolding IsValid save_history History.reset_navigation
pushed-IsValid writable text h prompt (pos, le, all, on) = on_writable writable
  where
    on_writable :
        (writable : Bool)
        → IsValid (
            History.reset_navigation (
              save_history writable
                (record h { entries = capped h.max_entries (h.entries ++ text ∷ []) })))
    on_writable true = (
      pos,
      length-capped h.max_entries (h.entries ++ text ∷ []) pos,
      capped-All IsPrompt h.max_entries (h.entries ++ text ∷ [])
          (snoc-All IsPrompt h.entries text all prompt),
      λ i e. absurd (none-ne-some e),
    )
    on_writable false = (
      pos,
      length-capped h.max_entries (h.entries ++ text ∷ []) pos,
      capped-All IsPrompt h.max_entries (h.entries ++ text ∷ [])
          (snoc-All IsPrompt h.entries text all prompt),
      λ i e. absurd (none-ne-some e),
    )

append_entry-IsValid :
    (writable : Bool) (text : Text) (h : HistoryManager)
    → IsPrompt text
    → IsValid h
    → IsValid (append_entry writable text h)
unfolding append_entry
append_entry-IsValid writable text h prompt valid =
    elim (Bool-cases (repeats_last text h.entries)) [
      | inl same ↦ rw (append_entry, same) valid
      | inr new ↦ rw (append_entry, new) (pushed-IsValid writable text h prompt valid)
    ]

add-IsValid :
    (writable : Bool) (text : Text) (h : HistoryManager)
    → IsValid h
    → IsValid (History.add writable text h)
unfolding History.add
add-IsValid writable text h valid = on_text (strip text) refl
  where
    on_text : (t : Text) → strip text ≡ t → IsValid (History.add writable text h)
    on_text [] e = rw (History.add, e) valid
    on_text (c ∷ cs) e = elim (Bool-cases (is_command (c ∷ cs))) [
      | inl command ↦ rw (History.add, e, command) valid
      | inr prompt ↦
          rw (History.add, e, prompt) (append_entry-IsValid writable (c ∷ cs) h prompt valid)
    ]

at-IsValid :
    (i : ℕ) (h : HistoryManager)
    → IsValid h
    → i < length h.entries
    → IsValid (record h { current_index = some i })
unfolding IsValid
at-IsValid i h (pos, le, all, on) lt = (pos, le, all, λ j e. omega (arith, some-injective e))

step_back-IsValid :
    (i : ℕ) (h : HistoryManager)
    → IsValid h
    → 0 < length h.entries
    → i ≤ length h.entries
    → IsValid (step_back i h).1
unfolding step_back
step_back-IsValid zero h valid some_entry le = at-IsValid 0 h valid some_entry
step_back-IsValid (suc i) h valid some_entry le = at-IsValid i h valid (omega arith)

typed-IsValid :
    (typed : Text) (h : HistoryManager) → IsValid h → IsValid (record h { temp_input = typed })
unfolding IsValid
typed-IsValid typed h valid = valid

walk_inside :
    (h : HistoryManager) → IsValid h → (i : ℕ) → h.current_index ≡ some i → i < length h.entries
unfolding IsValid
walk_inside h (pos, le, all, on) = on

get_previous-IsValid :
    (typed : Text) (h : HistoryManager) → IsValid h → IsValid (History.get_previous typed h).1
unfolding History.get_previous
get_previous-IsValid typed h valid = on_state h.entries h.current_index refl refl
  where
    on_state :
        (es : List Text) (index : Option ℕ)
        → h.entries ≡ es
        → h.current_index ≡ index
        → IsValid (History.get_previous typed h).1
    on_state [] index e f = rw (History.get_previous, e) valid
    on_state (x ∷ xs) none e f =
        rw (History.get_previous, e, f)
          (step_back-IsValid (length h.entries) (record h { temp_input = typed })
            (typed-IsValid typed h valid) (omega (arith, ap length e)) (omega arith))
    on_state (x ∷ xs) (some i) e f =
        rw (History.get_previous, e, f)
          (step_back-IsValid i h valid (omega (arith, ap length e))
            (omega (arith, walk_inside h valid i f)))

reset_navigation-IsValid : (h : HistoryManager) → IsValid h → IsValid (History.reset_navigation h)
unfolding IsValid History.reset_navigation
reset_navigation-IsValid h (pos, le, all, on) = (pos, le, all, λ i e. absurd (none-ne-some e))

get_next-IsValid : (h : HistoryManager) → IsValid h → IsValid (History.get_next h).1
unfolding History.get_next
get_next-IsValid h valid = on_index h.current_index refl
  where
    on_index : (index : Option ℕ) → h.current_index ≡ index → IsValid (History.get_next h).1
    on_index none e = rw (History.get_next, e) valid
    on_index (some i) e = elim (Bool-cases (ltb (suc i) (length h.entries))) [
      | inl more ↦
          rw (History.get_next, e, more)
            (at-IsValid (suc i) h valid (ltb→lt (suc i) (length h.entries) more))
      | inr last ↦ rw (History.get_next, e, last) (reset_navigation-IsValid h valid)
    ]

apply-IsValid : (op : Op) (h : HistoryManager) → IsValid h → IsValid (apply op h)
unfolding apply
apply-IsValid (add writable text) h valid = add-IsValid writable text h valid
apply-IsValid (get_previous typed) h valid = get_previous-IsValid typed h valid
apply-IsValid get_next h valid = get_next-IsValid h valid
apply-IsValid reset_navigation h valid = reset_navigation-IsValid h valid

-- Whatever the user types and however they walk through the history: there are never more entries than
-- allowed, if at least one is, no entry is empty or a command, and the walk stands on an entry, if that
-- was so at the start.
pub history_run-IsValid : (ops : List Op) (h : HistoryManager) → IsValid h → IsValid (run ops h)
unfolding run
history_run-IsValid [] h valid = valid
history_run-IsValid (op ∷ ops) h valid =
    history_run-IsValid ops (apply op h) (apply-IsValid op h valid)
