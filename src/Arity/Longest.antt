-- ===== src/Arity/Longest.antt =====
-- The pattern of a command comes from its longest known prefix.
use mathlib.Core.Path.{subst}
use Prim.Native.String.{◌++◌ as str_append}
use privibe.Prelude.{
  ℕ, zero, suc, ◌≤◌, ◌<◌, eqb, eqb_iff, Bool-cases, sym, ◌≡◌, ◌⊎◌, inl, inr, refl, String, none,
  some, List, ◌∷◌, length, take, arith, Option-cases,
}
use privibe.Arity.{arity_of, join_spaces, pattern_from, build_pattern}

-- Of the prefixes of at most `top` tokens, the one of `n` tokens is the longest that the table knows,
-- with arity `a`.
abbrev pub IsLongestKnown : List (String × ℕ) → List String → ℕ → ℕ → ℕ → Type 0
IsLongestKnown table tokens top n a =
    (0 < n)
    × (n ≤ top)
    × (arity_of table n tokens ≡ some a)
    × ((m : ℕ) → n < m → m ≤ top → arity_of table m tokens ≡ none)

abbrev pub NoneKnown : List (String × ℕ) → List String → ℕ → Type 0
NoneKnown table tokens top = (m : ℕ) → 0 < m → m ≤ top → arity_of table m tokens ≡ none

up_to :
    (P : ℕ → Type 0) (low top m : ℕ)
    → P (suc top)
    → ((k : ℕ) → low < k → k ≤ top → P k)
    → low < m
    → m ≤ suc top
    → P m
up_to P low top m last below lt le = elim (Bool-cases (eqb m (suc top))) [
  | inl same ↦ subst P (sym ((eqb_iff m (suc top)).0 same)) last
  | inr other ↦ below m lt (ground arith)
]

pattern_from_lem :
    (table : List (String × ℕ)) (tokens : List String) (top : ℕ)
    → ((n : ℕ) × (a : ℕ) × IsLongestKnown table tokens top n a
        × (pattern_from table top tokens ≡ some (str_append (join_spaces (take a tokens)) " *")))
      ⊎ (NoneKnown table tokens top × (pattern_from table top tokens ≡ none))
unfolding pattern_from
pattern_from_lem table tokens zero = inr (λ m h le. absurd (omega arith), refl)
pattern_from_lem table tokens (suc top) =
    on_prefix (Option-cases (arity_of table (suc top) tokens)) (pattern_from_lem table tokens top)
  where
    on_prefix :
        (arity_of table (suc top) tokens ≡ none)
          ⊎ ((a : ℕ) × (arity_of table (suc top) tokens ≡ some a))
        → ((n : ℕ) × (a : ℕ) × IsLongestKnown table tokens top n a
            × (pattern_from table top tokens
                ≡ some (str_append (join_spaces (take a tokens)) " *")))
          ⊎ (NoneKnown table tokens top × (pattern_from table top tokens ≡ none))
        → ((n : ℕ) × (a : ℕ) × IsLongestKnown table tokens (suc top) n a
            × (pattern_from table (suc top) tokens
                ≡ some (str_append (join_spaces (take a tokens)) " *")))
          ⊎ (NoneKnown table tokens (suc top) × (pattern_from table (suc top) tokens ≡ none))
    on_prefix (inr (a, e)) shorter = inl (
      suc top,
      a,
      (omega arith, omega arith, e, λ m lt le. absurd (omega arith)),
      rw (e, pattern_from) refl,
    )
    on_prefix (inl e) (inl (n, a, (pos, le, known, longer), p)) = inl (
      n,
      a,
      (
        pos,
        omega arith,
        known,
        λ m lt le'. up_to (λ k. arity_of table k tokens ≡ none) n top m e longer lt le',
      ),
      rw (e, pattern_from) p,
    )
    on_prefix (inl e) (inr (unknown, p)) = inr (
      λ m lt le'. up_to (λ k. arity_of table k tokens ≡ none) 0 top m e unknown lt le',
      rw (e, pattern_from) p,
    )

-- A command's pattern ends in a star and starts with as many of its tokens as the arity of its longest
-- prefix in the table says, or with the first token alone if the table knows no prefix of it.
pub build_pattern_longest :
    (table : List (String × ℕ)) (t : String) (ts : List String)
    → ((n : ℕ) × (a : ℕ) × IsLongestKnown table (t ∷ ts) (length (t ∷ ts)) n a
        × (build_pattern table (t ∷ ts) ≡ str_append (join_spaces (take a (t ∷ ts))) " *"))
      ⊎ (NoneKnown table (t ∷ ts) (length (t ∷ ts))
          × (build_pattern table (t ∷ ts) ≡ str_append t " *"))
unfolding build_pattern
build_pattern_longest table t ts = elim (pattern_from_lem table (t ∷ ts) (length (t ∷ ts))) [
  | inl (n, a, longest, p) ↦ inl (n, a, longest, rw (p, build_pattern) refl)
  | inr (unknown, p) ↦ inr (unknown, rw (p, build_pattern) refl)
]
