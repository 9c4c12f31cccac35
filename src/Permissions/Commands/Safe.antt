-- ===== src/Permissions/Commands/Safe.antt =====
-- Which lines of commands run without asking: resolve_permission of
-- privibe/core/tools/builtins/bash.py.
use text.Mathlib.Text.{starts_with}
use privibe.Prelude.{
  ◌≡◌, String, true, false, Option, none, some, List, [], ◌∷◌, ◌⊎◌, ◌&&◌, ◌||◌, ◌==◌, All,
}
use privibe.Str.{is_in, is_char_of, split}
use privibe.Permissions.{ToolPermission, RequiredPermission, PermissionContext}
use privibe.Permissions.Paths.{is_protected_path, is_path_within_workdir}
use privibe.Permissions.Tokens.{Shell, path_commands, leads_with, dir_glob, iter_candidate_tokens}
use privibe.Permissions.Commands.{BashToolConfig, is_always}
use privibe.Permissions.Commands.Covers.{has_pattern, IsAllowed, IsAsked, asks_human}
use privibe.Permissions.Commands.Judged.{IsClean}

module _ (sh : Shell) where
  -- An argument that is no flag, and no mode of chmod, looks like a path and leads outside the working
  -- directory.
  abbrev pub NamesOutside : String → String → Type 0
  NamesOutside command raw =
      (starts_with raw "-" ≡ false)
      × ((command == "chmod" && starts_with raw "+") ≡ false)
      × ((leads_with sh.os_sep (sh.expandvars raw)
            || (starts_with (sh.expandvars raw) "~"
                || (starts_with (sh.expandvars raw) "."
                    || is_char_of (sh.expandvars raw) sh.os_sep)))
          ≡ true)
      × (is_path_within_workdir sh.files (sh.expandvars raw) ≡ false)

  -- A token that looks like a path, leads outside the working directory and is not exempt.
  abbrev pub Escapes : List String → String × String → Type 0
  Escapes exempt (raw, path) =
      ((starts_with path "~"
          || (starts_with path ".." || (is_char_of path 47 || is_char_of path 92)))
        ≡ true)
      × (is_path_within_workdir sh.files path ≡ false)
      × (is_protected_path sh.files path exempt ≡ false)

  -- P holds of each argument of the command, if it is one that takes paths.
  abbrev pub EachArgument : (String → String → Type 0) → List String → Type 0
  EachArgument P [] = Unit
  EachArgument P (command ∷ arguments) =
      is_in command path_commands ≡ true → All (P command) arguments

  module _ (Q : String → Type 0) where
    abbrev OutsideHas : String → String → Type 0
    OutsideHas command raw = NamesOutside command raw → Q (dir_glob sh (sh.expandvars raw))

module _ (sh : Shell) (c : BashToolConfig) where
  -- Q holds of the directory of each argument outside, of a command that takes paths.
  abbrev pub OutsideArguments : (String → Type 0) → List String → Type 0
  OutsideArguments Q = All (λ part.
      EachArgument sh
        (λ command raw. NamesOutside sh command raw → Q (dir_glob sh (sh.expandvars raw)))
        (split part))

  -- Q holds of the directory of each token that escapes, where these are kept for a human.
  abbrev pub EscapedTokens : (String → Type 0) → List String → Type 0
  EscapedTokens Q parts =
      c.protect_outside_workdir ≡ true
      → All (λ t. Escapes sh c.outside_workdir_exempt t → Q (dir_glob sh t.1))
          (iter_candidate_tokens sh parts)

  -- What a permission says of the commands, and the required permissions if it is to ask.
  abbrev Grants : List String → List RequiredPermission → ToolPermission → Type 0
  Grants parts rs ToolPermission.always =
      IsClean sh c parts
      × EscapedTokens (λ _. ⊥) parts
      × ((is_always c.permission ≡ true)
          ⊎ (All (IsAllowed sh c) parts × OutsideArguments (λ _. ⊥) parts))
  Grants parts rs ToolPermission.never = ¬ IsClean sh c parts
  Grants parts rs ToolPermission.ask =
      IsClean sh c parts
      × All (IsAsked sh c rs) parts
      × EscapedTokens (λ g. asks_human g rs ≡ true) parts
      × OutsideArguments (λ g. has_pattern g rs ≡ true) parts

  abbrev pub Lets : List String → Option PermissionContext → Type 0
  Lets parts none = IsClean sh c parts × EscapedTokens (λ _. ⊥) parts
  Lets parts (some ctx) = Grants parts ctx.required_permissions ctx.permission
