-- ===== src/HashedEdit/Duplicates.antt =====
-- `_dup_prefix_len`, `_dup_suffix_len` and the part of `prepare_replacements` that uses them, in
-- privibe/core/tools/builtins/_hashed_core.py: new lines that repeat the lines around the region.
pub mod Dropped
use privibe.Prelude.{
  ℕ, zero, suc, ◌+◌, ◌-◌, min, Bool, true, false, ◌&&◌, ◌||◌, List, [], ◌∷◌, length, take, drop,
  leb, if◌then◌else◌,
}
use privibe.HashedEdit.{Line, Resolved, same_text}

-- `covered`: the lines that some replacement edits.
unfoldable pub covers : List Resolved → ℕ → Bool
covers [] i = false
covers (x ∷ xs) i = (leb x.start_idx i && leb i x.end_idx) || covers xs i

unfoldable pub same_lines : List Line → List Line → Bool
same_lines [] [] = true
same_lines [] (y ∷ ys) = false
same_lines (x ∷ xs) [] = false
same_lines (x ∷ xs) (y ∷ ys) = same_text x y && same_lines xs ys

-- `_DUP_WINDOW`
abbrev pub dup_window : ℕ
dup_window = 3

-- `file_lines[start:start + n]`
unfoldable pub lines_at : ℕ → ℕ → List Line → List Line
lines_at start n file_lines = take n (drop start file_lines)

-- The loop of `_dup_prefix_len` over `k`, with `n` turns to go.
unfoldable pub prefix_loop : (ℕ → Bool) → List Line → List Line → ℕ → ℕ → ℕ → ℕ → ℕ
unfolding same_lines lines_at
prefix_loop covered lines file_lines start zero k best = best
prefix_loop covered lines file_lines start (suc n) k best =
    let longer = prefix_loop covered lines file_lines start n (suc k) k in
    let same = prefix_loop covered lines file_lines start n (suc k) best in
    if covered (start - k)
    then best
    else (if same_lines (take k lines) (lines_at (start - k) k file_lines) then longer else same)

unfoldable pub dup_prefix_len : (ℕ → Bool) → List Line → List Line → ℕ → ℕ
unfolding prefix_loop
dup_prefix_len covered lines file_lines start =
    prefix_loop covered lines file_lines start (min dup_window (min (length lines - 1) start)) 1 0

-- The loop of `_dup_suffix_len`.
unfoldable pub suffix_loop : (ℕ → Bool) → List Line → List Line → ℕ → ℕ → ℕ → ℕ → ℕ
unfolding same_lines lines_at
suffix_loop covered lines file_lines after zero k best = best
suffix_loop covered lines file_lines after (suc n) k best =
    let longer = suffix_loop covered lines file_lines after n (suc k) k in
    let same = suffix_loop covered lines file_lines after n (suc k) best in
    if covered (after + k - 1)
    then best
    else (if same_lines (drop (length lines - k) lines) (lines_at after k file_lines)
        then longer
        else same)

unfoldable pub dup_suffix_len : (ℕ → Bool) → List Line → List Line → ℕ → ℕ
unfolding suffix_loop
dup_suffix_len covered lines file_lines after =
    suffix_loop covered lines file_lines after
      (min dup_window (min (length lines - 1) (length file_lines - after))) 1 0

-- `del lines[:lead]` and then `del lines[-trail:]`, for the lines of one replacement.
unfoldable pub drop_duplicates : (ℕ → Bool) → ℕ → ℕ → List Line → List Line → List Line
unfolding dup_prefix_len dup_suffix_len
drop_duplicates covered start end file_lines lines =
    let led : List Line = drop (dup_prefix_len covered lines file_lines start) lines in
    take (length led - dup_suffix_len covered led file_lines (suc end)) led
