-- ===== src/HashedEdit/Examples.antt =====
-- Hash-addressed edits of a small file.
use privibe.Prelude.{
  false, ◌-◌, ◌<◌, ◌++◌, ℕ, ◌+◌, ◌≤◌, ◌≡◌, ◌⊎◌, refl, none, some, List, [], ◌∷◌, length, get_elem?,
  arith,
}
use privibe.Prelude.Int.{pos}
use privibe.HashedEdit.{
  Line, LineReplacement, Resolved, start_of, end_of, malformed, resolve_range, resolve_one,
  resolve_each, insert_by_start, sorted, overlap, resolve_replacements, rstrip_newlines,
  hash_matches,
}
use privibe.HashedEdit.{same_text}
use privibe.HashedEdit.Duplicates.{
  covers, same_lines, lines_at, dup_window, prefix_loop, dup_prefix_len, suffix_loop,
  dup_suffix_len, drop_duplicates,
}
use privibe.HashedEdit.Duplicates.Dropped.{drop_duplicates_parts}
use privibe.HashedEdit.Hash.{sum, hash_matches_reordered}
use privibe.HashedEdit.Resolve.{AllAddress, Apart, resolve_replacements-Apart}
use privibe.HashedEdit.ShiftMap.{
  Prepared, ShiftMap, shift_edit, shift_through, walk_generations, translate_interval, same_ℤ,
  record_shift_generation, splice_all, translate_stale_addresses, splice,
}
use privibe.HashedEdit.ShiftMap.Follow.{WellEdited, edit_call, edit_calls, translate_interval-lines}
use privibe.HashedEdit.ShiftMap.Stale.{AllFollowed, translate_stale_addresses_outcome}
use privibe.HashedEdit.{address_ok, end_hash_matches}
use privibe.HashedEdit.ShiftMap.{translate_each, shifted_candidate, moved_to}

-- `a-b`, `b-a` and two more lines.
abbrev file : List Line
file = (97 ∷ 45 ∷ 98 ∷ 10 ∷ []) ∷ (120 ∷ 10 ∷ []) ∷ (121 ∷ 10 ∷ []) ∷ []

abbrev reordered : List Line
reordered = (98 ∷ 45 ∷ 97 ∷ 10 ∷ []) ∷ (120 ∷ 10 ∷ []) ∷ (121 ∷ 10 ∷ []) ∷ []

hash_matches_reordered_example :
    hash_matches file 0 (48 ∷ 48 ∷ 102 ∷ 49 ∷ [])
    ≡ hash_matches reordered 0 (48 ∷ 48 ∷ 102 ∷ 49 ∷ [])
unfolding rstrip_newlines sum
hash_matches_reordered_example =
    hash_matches_reordered file reordered 0 (97 ∷ 45 ∷ 98 ∷ 10 ∷ []) (98 ∷ 45 ∷ 97 ∷ 10 ∷ [])
      (48 ∷ 48 ∷ 102 ∷ 49 ∷ []) refl refl refl

abbrev line_at : ℕ → LineReplacement
line_at n = record {
  line = pos n;
  hash = [];
  new_content = 122 ∷ [];
  end_line = none;
  end_hash = none;
}

abbrev resolved_at : ℕ → ℕ → Resolved
resolved_at n i = record { start_idx = i; end_idx = i; replacement = line_at n }

resolve_replacements-Apart_example :
    AllAddress 3 (line_at 3 ∷ line_at 1 ∷ []) (resolved_at 3 2 ∷ resolved_at 1 0 ∷ [])
    × Apart 0 3 (sorted (resolved_at 3 2 ∷ resolved_at 1 0 ∷ []))
unfolding resolve_replacements resolve_each resolve_one resolve_range start_of end_of malformed
    sorted insert_by_start overlap
resolve_replacements-Apart_example =
    resolve_replacements-Apart (line_at 3 ∷ line_at 1 ∷ []) file
      (resolved_at 3 2 ∷ resolved_at 1 0 ∷ []) refl

-- Line 1 becomes two lines.
abbrev widened : Prepared
widened = record {
  start_idx = 0;
  end_idx = 0;
  replacement = line_at 1;
  lines = (97 ∷ 10 ∷ []) ∷ (98 ∷ 10 ∷ []) ∷ [];
}

abbrev map_after : ShiftMap
map_after = record { fingerprint = 4; generations = (shift_edit widened ∷ []) ∷ [] }

translate_interval-lines_example :
    (to : ℕ) × (pos 3 ≡ pos to)
    × (pos 3 ≡ pos (to + 0))
    × ((k : ℕ)
        → k ≤ 0
        → get_elem? (edit_calls length ((widened ∷ []) ∷ []) (file, none)).0 (to + k)
          ≡ get_elem? file (2 + k))
unfolding edit_calls edit_call record_shift_generation splice_all splice WellEdited
    translate_interval walk_generations shift_through shift_edit same_ℤ
translate_interval-lines_example =
    translate_interval-lines length ((widened ∷ []) ∷ []) file 2 0 (pos 3) (pos 3) map_after
      ((omega arith, omega arith, omega arith, tt), tt) refl refl

-- The same for a file of three lines, and the old address of its last one, with that line's hash.
abbrev map_of_file : ShiftMap
map_of_file = record map_after { fingerprint = 3 }

abbrev stale : LineReplacement
stale = record (line_at 2) { hash = 48 ∷ 48 ∷ 55 ∷ 97 ∷ [] }

translates :
    (translate_stale_addresses length (some map_of_file) (stale ∷ []) file).0.0
    ≡ record stale { line = pos 3 } ∷ []
unfolding translate_stale_addresses translate_each shifted_candidate moved_to translate_interval
    walk_generations shift_through shift_edit same_ℤ malformed address_ok end_hash_matches start_of
    end_of hash_matches rstrip_newlines
translates = refl

translate_stale_addresses_outcome_example :
    (translate_stale_addresses length (some map_of_file) (stale ∷ []) file
      ≡ ((stale ∷ [], []), none))
    ⊎ ((m : ShiftMap) × (some map_of_file ≡ some m)
        × (m.fingerprint ≡ 3)
        × ((translate_stale_addresses length (some map_of_file) (stale ∷ []) file).1 ≡ some m)
        × AllFollowed m file
            (stale ∷ [])
            (translate_stale_addresses length (some map_of_file) (stale ∷ []) file).0.0)
translate_stale_addresses_outcome_example =
    translate_stale_addresses_outcome length (some map_of_file) (stale ∷ []) file

-- The new lines repeat the file's first line, and its last one, around a line of their own.
abbrev echoed : List Line
echoed = (97 ∷ 45 ∷ 98 ∷ 10 ∷ []) ∷ (122 ∷ 10 ∷ []) ∷ (121 ∷ 10 ∷ []) ∷ []

duplicates_of_echoed :
    drop_duplicates (covers (resolved_at 2 1 ∷ [])) 1 1 file echoed ≡ (122 ∷ 10 ∷ []) ∷ []
unfolding drop_duplicates dup_prefix_len prefix_loop dup_suffix_len suffix_loop lines_at same_lines
    same_text covers
duplicates_of_echoed = refl

drop_duplicates_parts_example :
    (lead : ℕ) × (trail : ℕ) × (lead ≤ dup_window)
    × (trail ≤ dup_window)
    × (echoed
        ≡ lines_at (1 - lead) lead file
          ++ (drop_duplicates (covers (resolved_at 2 1 ∷ [])) 1 1 file echoed
              ++ lines_at 2 trail file))
    × (0 < length (drop_duplicates (covers (resolved_at 2 1 ∷ [])) 1 1 file echoed))
    × ((j : ℕ) → 0 < j → j ≤ lead → covers (resolved_at 2 1 ∷ []) (1 - j) ≡ false)
    × ((j : ℕ) → 0 < j → j ≤ trail → covers (resolved_at 2 1 ∷ []) (2 + j - 1) ≡ false)
drop_duplicates_parts_example =
    drop_duplicates_parts (covers (resolved_at 2 1 ∷ [])) 1 1 file echoed (omega arith)
