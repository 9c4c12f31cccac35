-- ===== src/HashedEdit/ShiftMap/Moves.antt =====
-- Where the lines that no edit touches stand after all the edits of a call.
use privibe.Prelude.{
  ℕ, suc, ◌+◌, ◌-◌, ◌≤◌, ◌<◌, ◌≡◌, ◌∙◌, ap, refl, ◌⊎◌, inl, inr, List, [], ◌∷◌, ◌++◌, length,
  length-append, length-take, get_elem?, get_elem?-append_left, get_elem?-append_right,
  get_elem?-drop, get_elem?-take, take, drop, ltb, if◌then◌else◌, arith, tests, Bool-cases, All,
}
use privibe.HashedEdit.{Line}
use privibe.HashedEdit.ShiftMap.{Prepared, splice, splice_all}

-- The edits stand in ascending order from `b` on, apart from each other, in a file of `n` lines.
abbrev pub Ascends : ℕ → ℕ → List Prepared → Type 0
Ascends b n [] = Unit
Ascends b n (p ∷ ps) =
    (b ≤ p.start_idx) × (p.start_idx ≤ p.end_idx) × (p.end_idx < n) × Ascends (suc p.end_idx) n ps

-- Lines that the edits above `cs` put in, and that they take out.
unfoldable pub added : ℕ → List Prepared → ℕ
added cs [] = 0
added cs (p ∷ ps) = (if ltb p.end_idx cs then length p.lines else 0) + added cs ps

unfoldable pub removed : ℕ → List Prepared → ℕ
removed cs [] = 0
removed cs (p ∷ ps) = (if ltb p.end_idx cs then suc p.end_idx - p.start_idx else 0) + removed cs ps

none_above :
    (ps : List Prepared) (b n cs : ℕ)
    → Ascends b n ps
    → cs ≤ b
    → (added cs ps ≡ 0) × (removed cs ps ≡ 0)
unfolding added removed
none_above [] b n cs asc h = (refl, refl)
none_above (p ∷ ps) b n cs (h1, h2, h3, asc) h =
    let (a, r) = none_above ps (suc p.end_idx) n cs asc (omega arith) in
    (ground arith, ground arith)

pub removed_le :
    (ps : List Prepared) (b n cs : ℕ) → Ascends b n ps → b ≤ cs → b + removed cs ps ≤ cs
unfolding removed
removed_le [] b n cs asc h = omega arith
removed_le (p ∷ ps) b n cs (h1, h2, h3, asc) h = elim (Bool-cases (ltb p.end_idx cs)) [
  | inl above ↦
      let ih = removed_le ps (suc p.end_idx) n cs asc (omega (tests, above)) in
      rw above (omega arith)
  | inr not_above ↦
      let (a, r) = none_above ps (suc p.end_idx) n cs asc (ground arith) in
      rw not_above (omega (arith, r))
]

splice_below :
    (p : Prepared) (ls : List Line) (i : ℕ)
    → p.start_idx ≤ length ls
    → i < p.start_idx
    → get_elem? (splice p ls) i ≡ get_elem? ls i
unfolding splice
splice_below p ls i le h =
    get_elem?-append_left (take p.start_idx ls) _ i (omega (arith, length-take p.start_idx ls))
    ∙ get_elem?-take p.start_idx ls i h

splice_above :
    (p : Prepared) (ls : List Line) (i j : ℕ)
    → p.start_idx ≤ length ls
    → p.end_idx < i
    → j ≡ p.start_idx + length p.lines + (i - suc p.end_idx)
    → get_elem? (splice p ls) j ≡ get_elem? ls i
unfolding splice
splice_above p ls i j le h e =
    get_elem?-append_right (take p.start_idx ls) _ (length p.lines + (i - suc p.end_idx)) j
      (omega (arith, length-take p.start_idx ls, e))
    ∙ get_elem?-append_right p.lines _ (i - suc p.end_idx) _ refl
    ∙ get_elem?-drop (suc p.end_idx) ls (i - suc p.end_idx) i (omega arith)

splice_all_reaches :
    (ps : List Prepared) (b : ℕ) (ls : List Line)
    → Ascends b (length ls) ps
    → b ≤ length ls
    → b ≤ length (splice_all ps ls)
unfolding splice_all splice
splice_all_reaches [] b ls asc h = h
splice_all_reaches (p ∷ ps) b ls (h1, h2, h3, asc) h =
    let ih = splice_all_reaches ps (suc p.end_idx) ls asc (omega arith) in
    omega (
      arith,
      length-append (take p.start_idx (splice_all ps ls))
          (p.lines ++ drop (suc p.end_idx) (splice_all ps ls)),
      length-take p.start_idx (splice_all ps ls),
    )

-- No edit touches the lines from `cs` to `ce`.
abbrev pub Clear : ℕ → ℕ → List Prepared → Type 0
Clear cs ce ps = All (λ p. (p.end_idx < cs) ⊎ (ce < p.start_idx)) ps

pub splice_all-moves :
    (ps : List Prepared) (b cs ce i : ℕ) (ls : List Line)
    → Ascends b (length ls) ps
    → Clear cs ce ps
    → cs ≤ i
    → i ≤ ce
    → get_elem? (splice_all ps ls) (i + added cs ps - removed cs ps) ≡ get_elem? ls i
unfolding splice_all added removed
splice_all-moves [] b cs ce i ls asc clear h1 h2 = ap (get_elem? ls) (omega arith)
splice_all-moves (p ∷ ps) b cs ce i ls (s1, s2, s3, asc) (here, clear) h1 h2 =
    let ih = splice_all-moves ps (suc p.end_idx) cs ce i ls asc clear h1 h2 in
    let reach = splice_all_reaches ps (suc p.end_idx) ls asc (omega arith) in
    elim here [
      | inl above ↦
          let kept = removed_le ps (suc p.end_idx) (length ls) cs asc (omega arith) in
          splice_above p (splice_all ps ls) (i + added cs ps - removed cs ps) _ (omega arith)
            (omega arith) (ground arith)
          ∙ ih
      | inr below ↦
          let (a, r) = none_above ps (suc p.end_idx) (length ls) cs asc (omega arith) in
          ap (get_elem? (splice p (splice_all ps ls))) (ground arith)
          ∙ splice_below p (splice_all ps ls) i (omega arith) (omega arith)
          ∙ ap (get_elem? (splice_all ps ls)) (omega (arith, a, r))
          ∙ ih
    ]
