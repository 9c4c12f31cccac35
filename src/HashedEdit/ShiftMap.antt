-- ===== src/HashedEdit/ShiftMap.antt =====
-- The splice of prepared edits into a file and the shift map that follows them:
-- `apply_replacements_to_file`, `_translate_interval`, `translate_stale_addresses` and
-- `record_shift_generation` of privibe/core/tools/builtins/_hashed_core.py.
pub mod Moves
pub mod Follow
pub mod Stale
use privibe.Prelude.{
  ℕ, zero, suc, ◌+◌, ◌-◌, ◌≤◌, ◌≡◌, Bool, true, false, not, ◌&&◌, ◌||◌, Option, none, some, List,
  [], ◌∷◌, ◌++◌, map, length, get_elem?, take, drop, ltb, leb, eqb, if◌then◌else◌,
}
use privibe.Prelude.Int.{ℤ, pos, negsuc, sub_ℕ, ◌+ℤ◌, ltb_ℤ, leb_ℤ}
use privibe.HashedEdit.{Line, LineReplacement, address_ok, start_of, end_of, malformed}

pub record Prepared : Type 0 where
  pub start_idx : ℕ
  pub end_idx : ℕ
  pub replacement : LineReplacement
  pub lines : List Line

-- `new_lines[start_idx : end_idx + 1] = lines`
unfoldable pub splice : Prepared → List Line → List Line
splice p ls = take p.start_idx ls ++ (p.lines ++ drop (suc p.end_idx) ls)

-- The loop over `prepared_desc`, the edits in ascending order taken from the last one back.
unfoldable pub splice_all : List Prepared → List Line → List Line
unfolding splice
splice_all [] ls = ls
splice_all (p ∷ ps) ls = splice p (splice_all ps ls)

pub total_lines_changed : List Prepared → ℕ
total_lines_changed [] = 0
total_lines_changed (p ∷ ps) = (suc p.end_idx - p.start_idx) + total_lines_changed ps

-- The shift map

pub record ShiftEdit : Type 0 where
  pub start_idx : ℕ
  pub end_idx : ℕ
  pub line_delta : ℤ

pub record ShiftMap : Type 0 where
  pub fingerprint : ℕ
  pub generations : List (List ShiftEdit)

unfoldable pub shift_edit : Prepared → ShiftEdit
shift_edit p = record {
  start_idx = p.start_idx;
  end_idx = p.end_idx;
  line_delta = sub_ℕ (length p.lines) (suc p.end_idx - p.start_idx);
}

-- The inner loop of `_translate_interval`, from `shift` on.
unfoldable pub shift_through : List ShiftEdit → ℤ → ℤ → ℤ → Option ℤ
shift_through [] cs ce shift = some shift
shift_through (x ∷ xs) cs ce shift =
    let moved = shift_through xs cs ce (shift +ℤ x.line_delta) in
    let still = shift_through xs cs ce shift in
    if ltb_ℤ (pos x.end_idx) cs then moved else (if ltb_ℤ ce (pos x.start_idx) then still else none)

unfoldable pub walk_generations : List (List ShiftEdit) → ℤ → ℤ → Option (ℤ × ℤ)
unfolding shift_through
walk_generations [] cs ce = some (cs, ce)
walk_generations (g ∷ gs) cs ce = elim (shift_through g cs ce (pos 0)) [
  | none ↦ none
  | some shift ↦ walk_generations gs (cs +ℤ shift) (ce +ℤ shift)
]

unfoldable pub same_ℤ : ℤ → ℤ → Bool
same_ℤ a b = leb_ℤ a b && leb_ℤ b a

unfoldable pub translate_interval : ShiftMap → ℤ → ℤ → Option (ℤ × ℤ)
unfolding walk_generations same_ℤ
translate_interval smap start_idx end_idx =
    elim (walk_generations smap.generations start_idx end_idx) [
      | none ↦ none
      | some (cs, ce) ↦ if same_ℤ cs start_idx && same_ℤ ce end_idx then none else some (cs, ce)
    ]

-- `fingerprint_of` is `_content_fingerprint`, the CRC-32 of the file's text.
unfoldable pub record_shift_generation :
    (List Line → ℕ) → List Prepared → List Line → Option ShiftMap → Option ShiftMap
unfolding shift_edit
record_shift_generation fingerprint_of prepared new_lines none =
    some (record {
      fingerprint = fingerprint_of new_lines;
      generations = map shift_edit prepared ∷ [];
    })
record_shift_generation fingerprint_of prepared new_lines (some smap) = some (record {
  fingerprint = fingerprint_of new_lines;
  generations = smap.generations ++ map shift_edit prepared ∷ [];
})

-- What the model is told of an address that has moved.
pub record ShiftNote : Type 0 where
  pub line : ℤ
  pub new_line : ℤ

-- `r.model_copy(update=...)`
unfoldable pub moved_to : ℤ → ℤ → LineReplacement → LineReplacement
moved_to cs ce r = record r {
  line = cs +ℤ pos 1;
  end_line = elim r.end_line [ none ↦ none | some _ ↦ some (ce +ℤ pos 1) ];
}

-- The candidate at the shifted lines, if it verifies there.
unfoldable pub shifted_candidate : ShiftMap → LineReplacement → List Line → Option LineReplacement
unfolding translate_interval moved_to
shifted_candidate smap r file_lines =
    if ltb_ℤ (start_of r) (pos 0) || ltb_ℤ (end_of r) (start_of r)
    then none
    else (elim (translate_interval smap (start_of r) (end_of r)) [
      | none ↦ none
      | some (cs, ce) ↦
          if address_ok (moved_to cs ce r) cs ce file_lines then some (moved_to cs ce r) else none
    ])

-- The loop of `translate_stale_addresses`; `none` where it gives up.
unfoldable pub translate_each :
    ShiftMap → List LineReplacement → List Line → Option (List LineReplacement × List ShiftNote)
unfolding shifted_candidate
translate_each smap [] file_lines = some ([], [])
translate_each smap (r ∷ rs) file_lines = elim (translate_each smap rs file_lines) [
  | none ↦ none
  | some (out, notes) ↦
      if malformed r || address_ok r (start_of r) (end_of r) file_lines
      then some (r ∷ out, notes)
      else (elim (shifted_candidate smap r file_lines) [
        | none ↦ none
        | some c ↦ some (c ∷ out, record { line = r.line; new_line = c.line } ∷ notes)
      ])
]

-- The replacements to go on with, the notes, and the file's map.
unfoldable pub translate_stale_addresses :
    (List Line → ℕ)
    → Option ShiftMap
    → List LineReplacement
    → List Line
    → (List LineReplacement × List ShiftNote) × Option ShiftMap
unfolding translate_each
translate_stale_addresses fingerprint_of none replacements file_lines = ((replacements, []), none)
translate_stale_addresses fingerprint_of (some smap) replacements file_lines =
    if not (eqb smap.fingerprint (fingerprint_of file_lines))
    then ((replacements, []), none)
    else (elim (translate_each smap replacements file_lines) [
      | none ↦ ((replacements, []), none)
      | some (out, notes) ↦ ((out, notes), some smap)
    ])
