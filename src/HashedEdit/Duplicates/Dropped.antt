-- ===== src/HashedEdit/Duplicates/Dropped.antt =====
-- What the removal of duplicates takes away.
use privibe.Prelude.{
  eqb_iff, ℕ, zero, suc, ◌+◌, ◌-◌, ◌≤◌, ◌<◌, ◌≡◌, ◌∙◌, sym, ap, refl, min, Bool, true, false, List,
  [], ◌∷◌, ◌++◌, length, take, drop, arith, Bool-cases, inl, inr, length-drop, length-take,
  take-append-drop, eqb,
}
use mathlib.Core.Path.{ap₂, subst}
use privibe.HashedEdit.{Line, same_text}
use privibe.HashedEdit.Duplicates.{
  same_lines, dup_window, lines_at, prefix_loop, dup_prefix_len, suffix_loop, dup_suffix_len,
  drop_duplicates,
}

same_text_lem : (a b : Line) → same_text a b ≡ true → a ≡ b
unfolding same_text
same_text_lem [] [] h = refl
same_text_lem [] (y ∷ ys) h = cc
same_text_lem (x ∷ xs) [] h = cc
same_text_lem (x ∷ xs) (y ∷ ys) h = ground (arith, same_text_lem xs ys)

same_lines_lem : (a b : List Line) → same_lines a b ≡ true → a ≡ b
unfolding same_lines
same_lines_lem [] [] h = refl
same_lines_lem [] (y ∷ ys) h = cc
same_lines_lem (x ∷ xs) [] h = cc
same_lines_lem (x ∷ xs) (y ∷ ys) h = ground (arith, same_text_lem x y, same_lines_lem xs ys)

one_more :
    (P : ℕ → Type 0) (k : ℕ)
    → P k
    → ((j : ℕ) → 0 < j → j < k → P j)
    → (j : ℕ) → 0 < j
    → j < suc k
    → P j
one_more P k last free j pos lt = elim (Bool-cases (eqb j k)) [
  | inl same ↦ subst P (sym ((eqb_iff j k).0 same)) last
  | inr other ↦ free j pos (ground arith)
]

drop_all : (ls : List Line) (n : ℕ) → length ls ≤ n → drop n ls ≡ []
drop_all [] zero h = refl
drop_all [] (suc n) h = refl
drop_all (x ∷ ls) zero h = absurd (omega arith)
drop_all (x ∷ ls) (suc n) h = drop_all ls n (omega arith)

module _ (covered : ℕ → Bool) (lines file_lines : List Line) where
  -- The first `b` new lines are the untouched lines right above `start`.
  abbrev Above : ℕ → ℕ → Type 0
  Above start b =
      (take b lines ≡ lines_at (start - b) b file_lines)
      × ((j : ℕ) → 0 < j → j ≤ b → covered (start - j) ≡ false)

  prefix_loop-Above :
      (start n k best : ℕ)
      → 0 < k
      → best < k
      → ((j : ℕ) → 0 < j → j < k → covered (start - j) ≡ false)
      → Above start best
      → Above start (prefix_loop covered lines file_lines start n k best)
        × (prefix_loop covered lines file_lines start n k best < k + n)
  unfolding prefix_loop
  prefix_loop-Above start zero k best pos lt free above = (above, omega arith)
  prefix_loop-Above start (suc n) k best pos lt free above =
      elim (Bool-cases (covered (start - k))) [
        | inl edited ↦ rw (prefix_loop, edited) (above, omega arith)
        | inr untouched ↦
            let free' = one_more (λ j. covered (start - j) ≡ false) k untouched free in
            elim (Bool-cases (same_lines (take k lines) (lines_at (start - k) k file_lines))) [
              | inl same ↦
                  let (a, l) =
                    prefix_loop-Above start n (suc k) k (omega arith) (omega arith) free'
                      (same_lines_lem _ _ same, λ j p le. free' j p (omega arith)) in
                  rw (prefix_loop, untouched, same) (a, omega (arith, l))
              | inr other ↦
                  let (a, l) =
                    prefix_loop-Above start n (suc k) best (omega arith) (omega arith) free'
                      above in
                  rw (prefix_loop, untouched, other) (a, omega (arith, l))
            ]
      ]

  dup_prefix_len-Above :
      (start : ℕ)
      → Above start (dup_prefix_len covered lines file_lines start)
        × (dup_prefix_len covered lines file_lines start
            ≤ min dup_window (min (length lines - 1) start))
  unfolding dup_prefix_len lines_at
  dup_prefix_len-Above start =
      let (above, lt) =
        prefix_loop-Above start (min dup_window (min (length lines - 1) start)) 1 0 (omega arith)
          (omega arith) (λ j pos lt. absurd (omega arith))
          (refl, λ j pos le. absurd (omega arith)) in
      (above, omega (arith, lt))

  -- The last `b` new lines are the untouched lines from `after` on.
  abbrev Below : ℕ → ℕ → Type 0
  Below after b =
      (drop (length lines - b) lines ≡ lines_at after b file_lines)
      × ((j : ℕ) → 0 < j → j ≤ b → covered (after + j - 1) ≡ false)

  suffix_loop-Below :
      (after n k best : ℕ)
      → 0 < k
      → best < k
      → ((j : ℕ) → 0 < j → j < k → covered (after + j - 1) ≡ false)
      → Below after best
      → Below after (suffix_loop covered lines file_lines after n k best)
        × (suffix_loop covered lines file_lines after n k best < k + n)
  unfolding suffix_loop
  suffix_loop-Below after zero k best pos lt free below = (below, omega arith)
  suffix_loop-Below after (suc n) k best pos lt free below =
      elim (Bool-cases (covered (after + k - 1))) [
        | inl edited ↦ rw (suffix_loop, edited) (below, omega arith)
        | inr untouched ↦
            let free' = one_more (λ j. covered (after + j - 1) ≡ false) k untouched free in
            elim (Bool-cases
              (same_lines (drop (length lines - k) lines) (lines_at after k file_lines))) [
                | inl same ↦
                    let (b, l) =
                      suffix_loop-Below after n (suc k) k (omega arith) (omega arith) free'
                        (same_lines_lem _ _ same, λ j p le. free' j p (omega arith)) in
                    rw (suffix_loop, untouched, same) (b, omega (arith, l))
                | inr other ↦
                    let (b, l) =
                      suffix_loop-Below after n (suc k) best (omega arith) (omega arith) free'
                        below in
                    rw (suffix_loop, untouched, other) (b, omega (arith, l))
              ]
      ]

  dup_suffix_len-Below :
      (after : ℕ)
      → Below after (dup_suffix_len covered lines file_lines after)
        × (dup_suffix_len covered lines file_lines after
            ≤ min dup_window (min (length lines - 1) (length file_lines - after)))
  unfolding dup_suffix_len lines_at
  dup_suffix_len-Below after =
      let (below, lt) =
        suffix_loop-Below after
          (min dup_window (min (length lines - 1) (length file_lines - after))) 1 0 (omega arith)
          (omega arith) (λ j pos lt. absurd (omega arith))
          (drop_all lines (length lines - 0) (omega arith), λ j pos le. absurd (omega arith)) in
      (below, omega (arith, lt))

-- The lines that are dropped from a replacement that is not empty repeat the lines of the file right
-- above the region and right below it, at most three on each side, none of which any replacement
-- edits; what is left of the replacement is not empty and stands between them.
pub drop_duplicates_parts :
    (covered : ℕ → Bool) (start end : ℕ) (file_lines lines : List Line)
    → 0 < length lines
    → (lead : ℕ) × (trail : ℕ) × (lead ≤ dup_window)
      × (trail ≤ dup_window)
      × (lines
          ≡ lines_at (start - lead) lead file_lines
            ++ (drop_duplicates covered start end file_lines lines
                ++ lines_at (suc end) trail file_lines))
      × (0 < length (drop_duplicates covered start end file_lines lines))
      × ((j : ℕ) → 0 < j → j ≤ lead → covered (start - j) ≡ false)
      × ((j : ℕ) → 0 < j → j ≤ trail → covered (suc end + j - 1) ≡ false)
unfolding drop_duplicates
drop_duplicates_parts covered start end file_lines lines some_line =
    let lead : ℕ = dup_prefix_len covered lines file_lines start in
    let ((above, free_above), lead_le) = dup_prefix_len-Above covered lines file_lines start in
    let led : List Line = drop lead lines in
    let ((below, free_below), trail_le) = dup_suffix_len-Below covered led file_lines (suc end) in
    let trail : ℕ = dup_suffix_len covered led file_lines (suc end) in
    let n : length led ≡ length lines - lead = length-drop lead lines in
    (
      lead,
      trail,
      omega (arith, lead_le),
      omega (arith, trail_le),
      sym (take-append-drop lead lines)
          ∙ ap₂ (λ a b. a ++ b) above
              (sym (take-append-drop (length led - trail) led)
                ∙ ap (take (length led - trail) led ++◌) below),
      omega (arith, length-take (length led - trail) led, n, lead_le, trail_le),
      free_above,
      free_below,
    )
