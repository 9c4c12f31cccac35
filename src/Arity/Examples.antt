-- ===== src/Arity/Examples.antt =====
-- The patterns of a few commands.
use Prim.Native.String.{◌++◌ as str_append}
use privibe.Prelude.{ℕ, ◌≡◌, ◌⊎◌, refl, String, List, [], ◌∷◌, take}
use privibe.Arity.{
  arity, arity_of, join_spaces, lookup, pattern_from, build_pattern, build_session_pattern,
}
use privibe.Arity.Longest.{IsLongestKnown, NoneKnown, build_pattern_longest}

pattern_of_npm_run :
    build_session_pattern ("npm" ∷ "run" ∷ "test" ∷ "--watch" ∷ []) ≡ "npm run test *"
unfolding build_session_pattern build_pattern pattern_from arity_of join_spaces lookup
pattern_of_npm_run = refl

pattern_of_unknown_command : build_session_pattern ("frob" ∷ "x" ∷ []) ≡ "frob *"
unfolding build_session_pattern build_pattern pattern_from arity_of join_spaces lookup
pattern_of_unknown_command = refl

abbrev command : List String
command = "git" ∷ "status" ∷ []

build_pattern_longest_example :
    ((n : ℕ) × (a : ℕ) × IsLongestKnown arity command 2 n a
      × (build_pattern arity command ≡ str_append (join_spaces (take a command)) " *"))
    ⊎ (NoneKnown arity command 2 × (build_pattern arity command ≡ str_append "git" " *"))
build_pattern_longest_example = build_pattern_longest arity "git" ("status" ∷ [])
