-- ===== src/Permissions/Tokens.antt =====
-- The tokens of shell commands and the paths that they may be: privibe/core/tools/builtins/bash.py.
use Prim.Native.Char.{code}
use text.Mathlib.Text.{starts_with}
use privibe.Prelude.{
  ℕ, String, Bool, true, false, Option, none, some, List, [], ◌∷◌, ◌++◌ as append, not, ◌&&◌, ◌||◌,
  eqb, ◌==◌, if◌then◌else◌,
}
use privibe.Str.{is_char_of, split, strip_by, after_char, is_in}
use privibe.Permissions.Paths.{FileSystem, is_protected_path, is_path_within_workdir, base_dir}

-- What a command's text refers to: the system, its shell and its environment.
pub record Shell : Type 0 where
  pub windows : Bool
  pub windows_bash : Bool  -- whether a Git Bash was found
  pub os_sep : ℕ
  pub expandvars : String → String
  pub basename : String → String
  pub extract_commands : String → List String
  pub files : FileSystem

abbrev pub path_commands : List String
path_commands =
    "cat" ∷ "cd" ∷ "chmod" ∷ "chown" ∷ "cp" ∷ "head" ∷ "ls" ∷ "mkdir" ∷ "mv" ∷ "rm" ∷ "stat"
    ∷ "tail" ∷ "touch" ∷ "wc" ∷ []

-- The characters that are stripped off a token.
abbrev is_quoting : ℕ → Bool
is_quoting = is_char_of "'\"`;|&()"

abbrev pub no_texts : List String → Bool
no_texts [] = true
no_texts (t ∷ ts) = false

-- Whether a text begins with a code point.
abbrev pub leads_with : ℕ → String → Bool
leads_with c String.[] = false
leads_with c (String.◌∷◌ d ds) = eqb (code d) c

module _ (sh : Shell) where
  -- The raw token and the path that it may be, of one token.
  unfoldable pub candidate : String → Option (String × String)
  candidate raw =
      let token : String = strip_by is_quoting raw in
      let value : Option String =
        if starts_with token "-" then after_char 61 token else some token in
      elim value [
        | none ↦ none
        | some text ↦ if text == "" then none else some (raw, sh.expandvars text)
      ]

  unfoldable pub candidates_in : List String → List (String × String)
  unfolding candidate
  candidates_in [] = []
  candidates_in (raw ∷ raws) =
      let rest = candidates_in raws in
      elim (candidate raw) [ none ↦ rest | some found ↦ found ∷ rest ]

  -- `_iter_candidate_tokens`
  unfoldable pub iter_candidate_tokens : List String → List (String × String)
  unfolding candidates_in
  iter_candidate_tokens [] = []
  iter_candidate_tokens (part ∷ parts) =
      append (candidates_in (split part)) (iter_candidate_tokens parts)

  unfoldable pub first_protected : List String → List (String × String) → Option String
  first_protected protected_paths [] = none
  first_protected protected_paths ((raw, expanded) ∷ tokens) =
      let rest = first_protected protected_paths tokens in
      if is_protected_path sh.files expanded protected_paths then some raw else rest

  -- `_find_protected_token`
  unfoldable pub find_protected_token : List String → List String → Option String
  unfolding first_protected iter_candidate_tokens
  find_protected_token parts protected_paths =
      if no_texts protected_paths
      then none
      else first_protected protected_paths (iter_candidate_tokens parts)

  -- The glob of the directory of a path: `str(Path(d) / "*")`.
  unfoldable pub dir_glob : String → String
  dir_glob path = sh.files.glob_under (base_dir sh.files path)

  -- Whether a token of a command is a path outside the working directory.
  unfoldable pub is_outside_argument : String → String → Bool
  is_outside_argument command raw =
      let token : String = sh.expandvars raw in
      not (starts_with raw "-")
      && (not (command == "chmod" && starts_with raw "+")
          && ((leads_with sh.os_sep token
                || (starts_with token "~" || (starts_with token "." || is_char_of token sh.os_sep)))
              && not (is_path_within_workdir sh.files token)))

  unfoldable pub outside_arguments : String → List String → List String
  unfolding is_outside_argument
  outside_arguments command [] = []
  outside_arguments command (raw ∷ raws) =
      let rest = outside_arguments command raws in
      if is_outside_argument command raw then dir_glob (sh.expandvars raw) ∷ rest else rest

  unfoldable pub outside_of_command : List String → List String
  unfolding outside_arguments
  outside_of_command [] = []
  outside_of_command (command ∷ arguments) =
      if is_in command path_commands then outside_arguments command arguments else []

  -- `_collect_outside_dirs`, each directory as its glob.
  unfoldable pub collect_outside_dirs : List String → List String
  unfolding outside_of_command
  collect_outside_dirs [] = []
  collect_outside_dirs (part ∷ parts) =
      append (outside_of_command (split part)) (collect_outside_dirs parts)

  unfoldable pub is_escalated_token : List String → String → Bool
  is_escalated_token exempt expanded =
      (starts_with expanded "~"
        || (starts_with expanded ".." || (is_char_of expanded 47 || is_char_of expanded 92)))
      && (not (is_path_within_workdir sh.files expanded)
          && not (is_protected_path sh.files expanded exempt))

  unfoldable pub escalated_in : List String → List (String × String) → List String
  unfolding is_escalated_token
  escalated_in exempt [] = []
  escalated_in exempt ((raw, expanded) ∷ tokens) =
      let rest = escalated_in exempt tokens in
      if is_escalated_token exempt expanded then dir_glob expanded ∷ rest else rest

  -- `_collect_escalated_outside_dirs`, each directory as its glob.
  unfoldable pub collect_escalated_outside_dirs : List String → List String → List String
  unfolding escalated_in iter_candidate_tokens
  collect_escalated_outside_dirs parts exempt = escalated_in exempt (iter_candidate_tokens parts)
