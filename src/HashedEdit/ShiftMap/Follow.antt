-- ===== src/HashedEdit/ShiftMap/Follow.antt =====
-- The shift map follows a file's lines: where a stale address is translated to, the lines it was read
-- for stand.
use mathlib.Core.Path.{ap₂}
use privibe.Prelude.{
  some-injective, none-ne-some, ℕ, suc, ◌+◌, ◌-◌, ◌≤◌, append-nil, append_assoc, ◌≡◌, ltb→lt, ◌∙◌,
  sym, ap, refl, inl, inr, true, ◌&&◌, false, Option, none, some, List, [], ◌∷◌, ◌++◌, map, length,
  get_elem?, ltb, arith, Bool-cases,
}
use privibe.Prelude.Int.{ℤ, pos, sub_ℕ, ◌+ℤ◌, add-sub_ℕ, pos-sub_ℕ}
use privibe.HashedEdit.{Line}
use privibe.HashedEdit.ShiftMap.Moves.{Ascends, Clear, added, removed, removed_le, splice_all-moves}
use privibe.HashedEdit.ShiftMap.{
  Prepared, ShiftEdit, ShiftMap, splice_all, shift_edit, shift_through, walk_generations,
  translate_interval, same_ℤ, record_shift_generation,
}

shift_through_above :
    (p : Prepared) (xs : List ShiftEdit) (cs ce a b : ℕ)
    → ltb p.end_idx cs ≡ true
    → shift_through (shift_edit p ∷ xs) (pos cs) (pos ce) (sub_ℕ a b)
      ≡ shift_through xs
          (pos cs)
          (pos ce)
          (sub_ℕ (a + length p.lines) (b + (suc p.end_idx - p.start_idx)))
unfolding shift_through shift_edit
shift_through_above p xs cs ce a b h = rw h (
    ap (shift_through xs (pos cs) (pos ce))
      (add-sub_ℕ a b (length p.lines) (suc p.end_idx - p.start_idx)))

shift_through_below :
    (p : Prepared) (xs : List ShiftEdit) (cs ce : ℕ) (shift : ℤ)
    → ltb p.end_idx cs ≡ false
    → ltb ce p.start_idx ≡ true
    → shift_through (shift_edit p ∷ xs) (pos cs) (pos ce) shift
      ≡ shift_through xs (pos cs) (pos ce) shift
unfolding shift_through shift_edit
shift_through_below p xs cs ce shift h g = rw (h, g) refl

shift_through_meets :
    (p : Prepared) (xs : List ShiftEdit) (cs ce : ℕ) (shift : ℤ)
    → ltb p.end_idx cs ≡ false
    → ltb ce p.start_idx ≡ false
    → shift_through (shift_edit p ∷ xs) (pos cs) (pos ce) shift ≡ none
unfolding shift_through shift_edit
shift_through_meets p xs cs ce shift h g = rw (h, g) refl

shift_through_lem :
    (ps : List Prepared) (cs ce a b : ℕ) (shift : ℤ)
    → shift_through (map shift_edit ps) (pos cs) (pos ce) (sub_ℕ a b) ≡ some shift
    → Clear cs ce ps × (shift ≡ sub_ℕ (a + added cs ps) (b + removed cs ps))
unfolding added removed
shift_through_lem [] cs ce a b shift h =
    let e : sub_ℕ a b ≡ shift = unfold shift_through in some-injective h in
    (tt, sym e ∙ ap₂ sub_ℕ (omega arith) (omega arith))
shift_through_lem (p ∷ ps) cs ce a b shift h = elim (Bool-cases (ltb p.end_idx cs)) [
  | inl above ↦
      let (clear, e) =
        shift_through_lem ps cs ce (a + length p.lines) (b + (suc p.end_idx - p.start_idx)) shift
          (sym (shift_through_above p (map shift_edit ps) cs ce a b above) ∙ h) in
      ((inl (ltb→lt p.end_idx cs above), clear), e ∙ ap₂ sub_ℕ (ground arith) (ground arith))
  | inr not_above ↦ elim (Bool-cases (ltb ce p.start_idx)) [
    | inl below ↦
        let (clear, e) =
          shift_through_lem ps cs ce a b shift
            (sym (shift_through_below p (map shift_edit ps) cs ce _ not_above below) ∙ h) in
        ((inr (ltb→lt ce p.start_idx below), clear), e ∙ ap₂ sub_ℕ (ground arith) (ground arith))
    | inr meets ↦ absurd (
        none-ne-some
          (sym (shift_through_meets p (map shift_edit ps) cs ce (sub_ℕ a b) not_above meets) ∙ h))
  ]
]

-- The file after every call's edits.
pub splice_calls : List (List Prepared) → List Line → List Line
splice_calls [] ls = ls
splice_calls (ps ∷ calls) ls = splice_calls calls (splice_all ps ls)

-- Each call's edits are in order, apart and inside the file as it then is.
unfoldable pub WellEdited : List (List Prepared) → List Line → Type 0
WellEdited [] ls = Unit
WellEdited (ps ∷ calls) ls = Ascends 0 (length ls) ps × WellEdited calls (splice_all ps ls)

walk_generations-none :
    (g : List ShiftEdit) (gs : List (List ShiftEdit)) (cs ce : ℤ)
    → shift_through g cs ce (pos 0) ≡ none
    → walk_generations (g ∷ gs) cs ce ≡ none
unfolding walk_generations
walk_generations-none g gs cs ce h = rw (h, walk_generations) refl

walk_generations-some :
    (g : List ShiftEdit) (gs : List (List ShiftEdit)) (cs n more less : ℕ) (shift : ℤ)
    → less ≤ cs
    → shift_through g (pos cs) (pos (cs + n)) (pos 0) ≡ some shift
    → shift ≡ sub_ℕ (0 + more) (0 + less)
    → walk_generations (g ∷ gs) (pos cs) (pos (cs + n))
      ≡ walk_generations gs (pos (cs + more - less)) (pos (cs + more - less + n))
unfolding walk_generations
walk_generations-some g gs cs n more less shift le h e =
    rw (h, walk_generations)
      (ap₂ (walk_generations gs)
        (ap (pos cs +ℤ◌) e
          ∙ pos-sub_ℕ cs (0 + more) (0 + less) (omega arith)
          ∙ ap pos (omega arith))
        (ap (pos (cs + n) +ℤ◌) e
          ∙ pos-sub_ℕ (cs + n) (0 + more) (0 + less) (omega arith)
          ∙ ap pos (omega arith)))

walk_generations_lem :
    (calls : List (List Prepared)) (ls : List Line) (cs n : ℕ) (a b : ℤ)
    → WellEdited calls ls
    → walk_generations (map (map shift_edit) calls) (pos cs) (pos (cs + n)) ≡ some (a, b)
    → (to : ℕ) × (a ≡ pos to)
      × (b ≡ pos (to + n))
      × ((k : ℕ) → k ≤ n → get_elem? (splice_calls calls ls) (to + k) ≡ get_elem? ls (cs + k))
unfolding walk_generations splice_calls WellEdited
walk_generations_lem [] ls cs n a b well h = (
  cs,
  sym (ap (λ x. x.0) (some-injective h)),
  sym (ap (λ x. x.1) (some-injective h)),
  λ k le. refl,
)
walk_generations_lem (ps ∷ calls) ls cs n a b (asc, well) h =
    on_shift (shift_through (map shift_edit ps) (pos cs) (pos (cs + n)) (pos 0)) refl
      (λ to. walk_generations_lem calls (splice_all ps ls) to n a b well)
  where
    on_shift :
        (o : Option ℤ)
        → shift_through (map shift_edit ps) (pos cs) (pos (cs + n)) (pos 0) ≡ o
        → ((to : ℕ)
            → walk_generations (map (map shift_edit) calls) (pos to) (pos (to + n)) ≡ some (a, b)
            → (to' : ℕ) × (a ≡ pos to')
              × (b ≡ pos (to' + n))
              × ((k : ℕ)
                  → k ≤ n
                  → get_elem? (splice_calls calls (splice_all ps ls)) (to' + k)
                    ≡ get_elem? (splice_all ps ls) (to + k)))
        → (to : ℕ) × (a ≡ pos to)
          × (b ≡ pos (to + n))
          × ((k : ℕ)
              → k ≤ n
              → get_elem? (splice_calls calls (splice_all ps ls)) (to + k) ≡ get_elem? ls (cs + k))
    on_shift none e ih = absurd (
        none-ne-some (
          sym (
            walk_generations-none (map shift_edit ps) (map (map shift_edit) calls) (pos cs)
              (pos (cs + n)) e)
          ∙ h))
    on_shift (some shift) e ih =
        let (clear, sh) = shift_through_lem ps cs (cs + n) 0 0 shift e in
        let le = removed_le ps 0 (length ls) cs asc (omega arith) in
        let to : ℕ = cs + added cs ps - removed cs ps in
        let (to', ea, eb, same) = ih to (
          sym (
            walk_generations-some (map shift_edit ps) (map (map shift_edit) calls) cs n
              (added cs ps) (removed cs ps) shift (omega (arith, le)) e sh)
          ∙ h) in
        (
          to',
          ea,
          eb,
          λ k h'.
              same k h'
              ∙ ap (get_elem? (splice_all ps ls)) (omega arith)
              ∙ splice_all-moves ps 0 cs (cs + n) (cs + k) ls asc clear (omega arith) (omega arith),
        )

pub translate_interval_walks :
    (smap : ShiftMap) (s e : ℤ) (r : ℤ × ℤ)
    → translate_interval smap s e ≡ some r
    → walk_generations smap.generations s e ≡ some r
unfolding translate_interval
translate_interval_walks smap s e r h = on_walk (walk_generations smap.generations s e) refl
  where
    on_walk :
        (o : Option (ℤ × ℤ))
        → walk_generations smap.generations s e ≡ o
        → walk_generations smap.generations s e ≡ some r
    on_walk none e' = absurd (none-ne-some (rw (e', translate_interval) at h))
    on_walk (some (cs, ce)) e' = elim (Bool-cases (same_ℤ cs s && same_ℤ ce e)) [
      | inl same ↦ absurd (none-ne-some (rw (e', translate_interval, same) at h))
      | inr moved ↦ e' ∙ (rw (e', translate_interval, moved) at h)
    ]

module _ (fingerprint_of : List Line → ℕ) where
  -- One call: the file is spliced and the generation recorded.
  unfoldable pub edit_call :
      List Prepared → List Line × Option ShiftMap → List Line × Option ShiftMap
  edit_call ps (ls, smap) =
      (splice_all ps ls, record_shift_generation fingerprint_of ps (splice_all ps ls) smap)

  unfoldable pub edit_calls :
      List (List Prepared) → List Line × Option ShiftMap → List Line × Option ShiftMap
  unfolding edit_call
  edit_calls [] s = s
  edit_calls (ps ∷ calls) s = edit_calls calls (edit_call ps s)

  abbrev generations_of : Option ShiftMap → List (List ShiftEdit)
  generations_of none = []
  generations_of (some smap) = smap.generations

  edit_calls_lem :
      (calls : List (List Prepared)) (ls : List Line) (smap : Option ShiftMap)
      → ((edit_calls calls (ls, smap)).0 ≡ splice_calls calls ls)
        × (generations_of (edit_calls calls (ls, smap)).1
            ≡ generations_of smap ++ map (map shift_edit) calls)
  unfolding edit_calls splice_calls record_shift_generation
  edit_calls_lem [] ls smap = (refl, sym (append-nil (generations_of smap)))
  edit_calls_lem (ps ∷ calls) ls none = edit_calls_lem calls (splice_all ps ls) _
  edit_calls_lem (ps ∷ calls) ls (some smap) =
      let (l, g) = edit_calls_lem calls (splice_all ps ls) _ in
      (l, g ∙ append_assoc smap.generations (map shift_edit ps ∷ []) (map (map shift_edit) calls))

  -- A session's calls edit a file, from a fresh map on. If the map then translates an address, it
  -- translates both ends by the same distance, and every line from its first to its last is the line
  -- that stood there when the address was read.
  pub translate_interval-lines :
      (calls : List (List Prepared)) (ls : List Line) (cs n : ℕ) (a b : ℤ) (smap : ShiftMap)
      → WellEdited calls ls
      → (edit_calls calls (ls, none)).1 ≡ some smap
      → translate_interval smap (pos cs) (pos (cs + n)) ≡ some (a, b)
      → (to : ℕ) × (a ≡ pos to)
        × (b ≡ pos (to + n))
        × ((k : ℕ)
            → k ≤ n
            → get_elem? (edit_calls calls (ls, none)).0 (to + k) ≡ get_elem? ls (cs + k))
  translate_interval-lines calls ls cs n a b smap well recorded h =
      let (l, g) = edit_calls_lem calls ls none in
      let gens : smap.generations ≡ map (map shift_edit) calls =
        sym (ap generations_of recorded) ∙ g in
      let (to, ea, eb, same) = walk_generations_lem calls ls cs n a b well (
        ap (λ gs. walk_generations gs (pos cs) (pos (cs + n))) (sym gens)
        ∙ translate_interval_walks smap (pos cs) (pos (cs + n)) (a, b) h) in
      (to, ea, eb, λ k le. ap (λ x. get_elem? x (to + k)) l ∙ same k le)
