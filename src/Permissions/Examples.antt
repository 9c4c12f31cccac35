-- ===== src/Permissions/Examples.antt =====
-- A call that was always allowed.
use privibe.Prelude.{String, Bool, true, false, Option, none, some, [], ◌∷◌, ◌==◌, ◌≡◌, refl}
use privibe.Permissions.{
  ToolPermission, PermissionScope, RequiredPermission, Session, Outside, ApprovalResponse,
  should_execute_tool, approve_always, wildcard_match, has_rule,
}
use privibe.Permissions.Decisions.{Runs, should_execute_tool-approve_always}
use privibe.Prelude.{false, if◌then◌else◌}
use privibe.Permissions.Paths.{FileSystem, FileTool, resolve_file_tool_permission}
use privibe.Permissions.Paths.Outcome.{Answers, resolve_file_tool_permission-Answers}
use privibe.Permissions.Commands.{
  BashToolConfig, get_default_allowlist, get_default_denylist, get_default_denylist_standalone,
}
use privibe.Permissions.Tokens.{Shell}

abbrev equal : String → String → Bool
equal text pattern = text == pattern

abbrev no_group : String → Option String
no_group name = none

abbrev asks_always : String → ToolPermission
asks_always name = ToolPermission.ask

abbrev list_files : RequiredPermission
list_files = record {
  scope = PermissionScope.command_pattern;
  invocation_pattern = "ls";
  session_pattern = "ls *";
  label = "ls";
  escalated = true;
}

abbrev session : Session
session = record {
  auto_approve = true;
  nanny_reviews_escalated = false;
  session_rules = [];
  session_denials = [];
  nanny_delegations = [];
}

abbrev refusing : Outside
refusing = record {
  approval_callback = some (λ n rps r. (ApprovalResponse.no, none));
  nanny = none;
}

should_execute_tool-approve_always_example :
    let out =
      should_execute_tool equal no_group asks_always refusing "bash"
        (some (record {
          permission = ToolPermission.ask;
          required_permissions = list_files ∷ [];
          reason = none;
        }))
        (approve_always equal no_group asks_always "bash" (list_files ∷ []) session) in
    Runs out × (out.asks ≡ [])
unfolding wildcard_match has_rule
should_execute_tool-approve_always_example =
    should_execute_tool-approve_always equal no_group asks_always refusing "bash" list_files [] none
      session (refl, tt) (refl, tt)

-- Paths as their parts between slashes, in a directory /w.
abbrev files : FileSystem
files = record {
  resolve = λ path. if path == "../up" then "up" ∷ [] else "w" ∷ path ∷ [];
  cwd = "w" ∷ [];
  shown = λ l. "/";
  glob_under = λ l. "/*";
  is_dir = λ l. false;
  name = λ path. path;
  expanduser = λ entry. entry;
  fnmatch = equal;
  path_match = equal;
  to_posix_for_match = λ path. path;
}

abbrev shell : Shell
shell = record {
  windows = false;
  windows_bash = false;
  os_sep = 47;
  expandvars = λ token. token;
  basename = λ token. token;
  extract_commands = λ line. "git log" ∷ "rm ../up" ∷ [];
  files = files;
}

abbrev bash_config : BashToolConfig
bash_config = record {
  permission = ToolPermission.ask;
  allowlist = get_default_allowlist false;
  denylist = get_default_denylist false;
  denylist_standalone = get_default_denylist_standalone false;
  sensitive_patterns = "sudo" ∷ [];
  protected_paths = [];
  protect_outside_workdir = true;
  outside_workdir_exempt = [];
}

abbrev read_file : FileTool
read_file = record {
  tool_name = "read_file";
  permission = ToolPermission.always;
  allowlist = [];
  denylist = [];
  sensitive_patterns = [];
  protected_paths = ".git" ∷ [];
  protect_outside_workdir = true;
  outside_workdir_exempt = [];
}

resolve_file_tool_permission-Answers_example :
    Answers files read_file "../up" (resolve_file_tool_permission files read_file "../up")
resolve_file_tool_permission-Answers_example =
    resolve_file_tool_permission-Answers files read_file "../up"
