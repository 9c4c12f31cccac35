-- ===== src/Permissions/Commands.antt =====
-- Which shell commands run: resolve_permission of privibe/core/tools/builtins/bash.py. The commands
-- that the shell's grammar finds in a line are an argument, as is the environment.
pub mod Covers
pub mod Decides
pub mod Judged
pub mod Safe
use Prim.Native.Char.{code}
use Prim.Native.String.{◌++◌}
use Prim.Native.String
use text.Mathlib.Text.{starts_with}
use privibe.Prelude.{
  ℕ, String, Bool, true, false, Option, none, some, List, [], ◌∷◌, ◌++◌ as append, not, ◌&&◌, ◌||◌,
  eqb, ◌==◌, if◌then◌else◌, or_empty,
}
use privibe.Str.{is_char_of, split, strip_by, after_char, is_in, distinct, sorted}
use privibe.Arity.{build_session_pattern}
use privibe.Permissions.{PermissionScope, ToolPermission, RequiredPermission, PermissionContext}
use privibe.Permissions.Paths.{FileSystem, is_protected_path, is_path_within_workdir, base_dir}
use privibe.Permissions.Tokens.{
  Shell, no_texts, find_protected_token, collect_outside_dirs, collect_escalated_outside_dirs,
}

pub record BashToolConfig : Type 0 where
  pub permission : ToolPermission
  pub allowlist : List String
  pub denylist : List String
  pub denylist_standalone : List String
  pub sensitive_patterns : List String
  pub protected_paths : List String
  pub protect_outside_workdir : Bool
  pub outside_workdir_exempt : List String

abbrev pub get_default_allowlist : Bool → List String
get_default_allowlist windows =
    append
      ("cd" ∷ "echo" ∷ "git diff" ∷ "git log" ∷ "git status" ∷ "tree" ∷ "whoami" ∷ "cat" ∷ "file"
        ∷ "head" ∷ "ls" ∷ "pwd" ∷ "stat" ∷ "tail" ∷ "uname" ∷ "wc" ∷ "which" ∷ [])
      (if windows then "dir" ∷ "findstr" ∷ "more" ∷ "type" ∷ "ver" ∷ "where" ∷ [] else [])

abbrev pub get_default_denylist : Bool → List String
get_default_denylist windows =
    append
      ("gdb" ∷ "pdb" ∷ "passwd" ∷ "nano" ∷ "vim" ∷ "vi" ∷ "emacs" ∷ "bash -i" ∷ "sh -i" ∷ "zsh -i"
        ∷ "fish -i" ∷ "dash -i" ∷ "screen" ∷ "tmux" ∷ [])
      (if windows then "cmd /k" ∷ "powershell -NoExit" ∷ "pwsh -NoExit" ∷ "notepad" ∷ [] else [])

abbrev pub get_default_denylist_standalone : Bool → List String
get_default_denylist_standalone windows =
    append
      ("python" ∷ "python3" ∷ "ipython" ∷ "bash" ∷ "sh" ∷ "nohup" ∷ "vi" ∷ "vim" ∷ "emacs" ∷ "nano"
        ∷ "su" ∷ [])
      (if windows then "cmd" ∷ "powershell" ∷ "pwsh" ∷ "notepad" ∷ [] else [])

unfoldable pub matches_pattern : String → String → Bool
matches_pattern command pattern = command == pattern || starts_with command (pattern ++ " ")

unfoldable pub find_denylist_match : String → List String → Option String
unfolding matches_pattern
find_denylist_match command [] = none
find_denylist_match command (p ∷ ps) =
    let rest = find_denylist_match command ps in if matches_pattern command p then some p else rest

abbrev pub is_always : ToolPermission → Bool
is_always ToolPermission.always = true
is_always _ = false

-- `any` and `all` over the commands.
unfoldable pub any_of : (String → Bool) → List String → Bool
any_of test [] = false
any_of test (t ∷ ts) = test t || any_of test ts

unfoldable pub all_of : (String → Bool) → List String → Bool
all_of test [] = true
all_of test (t ∷ ts) = test t && all_of test ts

module _ (sh : Shell) (c : BashToolConfig) where
  unfoldable pub is_standalone_denylisted : String → Bool
  is_standalone_denylisted command = elim (split command) [
    | [] ↦ false
    | base ∷ arguments ↦
        no_texts arguments
        && (is_in (sh.basename base) c.denylist_standalone || is_in base c.denylist_standalone)
  ]

  unfoldable pub is_allowlisted : String → Bool
  unfolding matches_pattern
  is_allowlisted command = any_of (matches_pattern command) c.allowlist

  unfoldable pub is_sensitive : String → Bool
  is_sensitive command = elim (split command) [
    | [] ↦ false
    | base ∷ arguments ↦ is_in base c.sensitive_patterns
  ]

  -- The reason to refuse the first command that is denied, if one is.
  unfoldable pub denial : List String → Option String
  unfolding find_denylist_match is_standalone_denylisted
  denial [] = none
  denial (part ∷ parts) =
      let rest = denial parts in
      elim (find_denylist_match part c.denylist) [
        | some matched ↦ some (
            "Command denied: '"
            ++ (part
                ++ ("' matches denylist pattern '"
                    ++ (matched ++ "'. Do not attempt to run this command."))))
        | none ↦
            if is_standalone_denylisted part
            then some (
                "Command denied: '"
                ++ (part
                    ++ ("' is not allowed as a standalone command. "
                        ++ "Do not attempt to run this command.")))
            else rest
      ]

  abbrev pub pattern_permission : String → String → RequiredPermission
  pattern_permission part pattern = record {
    scope = PermissionScope.command_pattern;
    invocation_pattern = part;
    session_pattern = pattern;
    label = pattern;
    escalated = false;
  }

  -- What must be asked for a command, if anything; `seen` are the session patterns asked for already.
  unfoldable pub new_permission : List String → String → Option RequiredPermission
  new_permission seen part =
      let pattern = build_session_pattern (split part) in
      if no_texts (split part)
      then none
      else if is_sensitive part
      then some (pattern_permission part part)
      else if is_allowlisted part || is_in pattern seen
      then none
      else some (pattern_permission part pattern)

  unfoldable pub seen_after : List String → String → List String
  seen_after seen part =
      let pattern = build_session_pattern (split part) in
      if no_texts (split part)
      then seen
      else if is_sensitive part
      then seen
      else if is_allowlisted part || is_in pattern seen
      then seen
      else pattern ∷ seen

  unfoldable pub command_permissions : List String → List String → List RequiredPermission
  command_permissions seen [] = []
  command_permissions seen (part ∷ parts) =
      let rest = command_permissions (seen_after seen part) parts in
      elim (new_permission seen part) [ none ↦ rest | some r ↦ r ∷ rest ]

  -- What must be asked for the directories outside.
  unfoldable pub directory_permissions : List String → List String → List RequiredPermission
  directory_permissions escalated [] = []
  directory_permissions escalated (glob ∷ globs) =
      record {
        scope = PermissionScope.outside_directory;
        invocation_pattern = glob;
        session_pattern = glob;
        label = "outside workdir (" ++ (glob ++ ")");
        escalated = is_in glob escalated;
      }
      ∷ directory_permissions escalated globs

  abbrev pub always : PermissionContext
  always = record { permission = ToolPermission.always; required_permissions = []; reason = none }

  abbrev pub never : String → PermissionContext
  never reason = record {
    permission = ToolPermission.never;
    required_permissions = [];
    reason = some reason;
  }

  unfoldable pub ask_for : List RequiredPermission → Option PermissionContext
  ask_for [] = none
  ask_for (r ∷ rs) =
      some
        (record { permission = ToolPermission.ask; required_permissions = r ∷ rs; reason = none })

  unfoldable pub all_clear : List String → Bool
  all_clear parts = not (any_of is_sensitive parts) && all_of is_allowlisted parts

  unfoldable pub escalated_dirs : List String → List String
  escalated_dirs parts =
      if c.protect_outside_workdir
      then collect_escalated_outside_dirs sh parts c.outside_workdir_exempt
      else []

  -- The answer for commands of which none is denied.
  unfoldable pub allow_or_ask : List String → Option PermissionContext
  allow_or_ask parts =
      let escalated = escalated_dirs parts in
      let outside = collect_outside_dirs sh parts in
      if no_texts escalated && is_always c.permission
      then some always
      else if all_clear parts && (no_texts outside && no_texts escalated)
      then some always
      else ask_for (
          append (command_permissions [] parts)
            (directory_permissions escalated (sorted (distinct (append outside escalated)))))

  unfoldable pub judge : List String → Option PermissionContext
  judge parts = elim (denial parts) [
    | some reason ↦ some (never reason)
    | none ↦ elim (find_protected_token sh parts c.protected_paths) [
      | some hit ↦ some (
          never (
            "Command denied: '"
            ++ (hit ++ "' refers to a protected path. Do not attempt to access it.")))
      | none ↦ allow_or_ask parts
    ]
  ]

  unfoldable pub resolve_permission : String → Option PermissionContext
  resolve_permission command =
      let parts = sh.extract_commands command in
      if (sh.windows && not sh.windows_bash) || no_texts parts then none else judge parts
