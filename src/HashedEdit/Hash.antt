-- ===== src/HashedEdit/Hash.antt =====
-- What the line hash sees of a line.
use privibe.Prelude.{
  ℕ, ◌+◌, ◌*◌, ◌%◌, ◌^◌, ◌<◌, ◌≡◌, ◌∙◌, sym, ap, some, List, [], ◌∷◌, arith, get_elem?,
}
use privibe.HashedEdit.{
  Line, adler_sums, adler32, hex4, line_hash, rstrip_newlines, same_text, hash_matches,
}

unfoldable pub sum : List ℕ → ℕ
sum [] = 0
sum (x ∷ xs) = x + sum xs

add-mod : (a b : ℕ) → ((a % 65521 + b) % 65521) ≡ ((a + b) % 65521)
add-mod a b = omega arith

adler_sums_low :
    (a b : ℕ) (bytes : List ℕ) → a < 65521 → (adler_sums a b bytes).0 ≡ (a + sum bytes) % 65521
unfolding adler_sums sum
adler_sums_low a b [] h = omega arith
adler_sums_low a b (x ∷ xs) h =
    adler_sums_low ((a + x) % 65521) ((b + (a + x) % 65521) % 65521) xs (omega arith) ∙ omega arith

low_half : (a b : ℕ) → a < 65521 → (b * 2 ^ 16 + a) % 2 ^ 16 ≡ a
low_half a b h = omega arith

adler32_low : (bytes : List ℕ) → adler32 bytes % 2 ^ 16 ≡ (1 + sum bytes) % 65521
unfolding adler32
adler32_low bytes =
    let low = adler_sums_low 1 0 bytes (omega arith) in
    low_half (adler_sums 1 0 bytes).0 (adler_sums 1 0 bytes).1 (omega (arith, low)) ∙ low

line_hash-sum : (xs ys : List ℕ) → sum xs ≡ sum ys → line_hash xs ≡ line_hash ys
unfolding line_hash
line_hash-sum xs ys h =
    ap hex4 (adler32_low xs ∙ ap (λ s. (1 + s) % 65521) h ∙ sym (adler32_low ys))

-- A hash verifies a line exactly when it verifies any other line whose bytes have the same sum: a line
-- that has been rewritten with its characters in another order passes for the one that was read.
pub hash_matches_reordered :
    (file_lines now : List Line) (i : ℕ) (line other : Line) (hash : List ℕ)
    → get_elem? file_lines i ≡ some line
    → get_elem? now i ≡ some other
    → sum (rstrip_newlines line) ≡ sum (rstrip_newlines other)
    → hash_matches file_lines i hash ≡ hash_matches now i hash
unfolding hash_matches
hash_matches_reordered file_lines now i line other hash e f h =
    rw (e, f, hash_matches)
      (ap (λ x. same_text x hash) (line_hash-sum (rstrip_newlines line) (rstrip_newlines other) h))
