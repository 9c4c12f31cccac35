-- ===== src/Permissions/Paths.antt =====
-- Which paths a file tool may touch: privibe/core/tools/utils.py. How a path resolves on the file
-- system is an argument.
pub mod Outcome
use privibe.Prelude.{
  String, Bool, true, false, Option, none, some, List, [], ◌∷◌, ◌&&◌, ◌||◌, ◌==◌, if◌then◌else◌,
  drop_last,
}
use privibe.Str.{is_char_of}
use privibe.Permissions.{ToolPermission, PermissionContext}
use Prim.Native.String.{◌++◌}
use privibe.Permissions.{RequiredPermission, PermissionScope}
use privibe.Prelude.{◌++◌ as append}
use privibe.Prelude.{not}

-- The parts of an absolute path, the root first.
abbrev pub Location : Type 0
Location = List String

-- The file system and the libraries on paths. `resolve` is `_make_absolute(p).resolve()`, `shown` is
-- `str`, and `name` is the name of the path before it is resolved.
pub record FileSystem : Type 0 where
  pub resolve : String → Location
  pub cwd : Location
  pub shown : Location → String
  pub glob_under : Location → String
  pub is_dir : Location → Bool
  pub name : String → String
  pub expanduser : String → String
  pub fnmatch : String → String → Bool
  pub path_match : String → String → Bool  -- PurePosixPath.match
  pub to_posix_for_match : String → String

-- Whether a location is another one or lies inside it.
unfoldable pub is_within : Location → Location → Bool
is_within [] inner = true
is_within (p ∷ ps) [] = false
is_within (p ∷ ps) (q ∷ qs) = p == q && is_within ps qs

-- The settings of a file tool.
pub record FileTool : Type 0 where
  pub tool_name : String
  pub permission : ToolPermission
  pub allowlist : List String
  pub denylist : List String
  pub sensitive_patterns : List String
  pub protected_paths : List String
  pub protect_outside_workdir : Bool
  pub outside_workdir_exempt : List String

abbrev is_never : ToolPermission → Bool
is_never ToolPermission.never = true
is_never _ = false

abbrev has_glob : String → Bool
has_glob entry = is_char_of entry 42 || (is_char_of entry 63 || is_char_of entry 91)

module _ (f : FileSystem) where
  unfoldable pub is_protected_path : String → List String → Bool
  unfolding is_within
  is_protected_path path [] = false
  is_protected_path path (entry ∷ entries) =
      (if has_glob entry
        then f.fnmatch (f.shown (f.resolve path)) (f.expanduser entry)
        else is_within (f.resolve entry) (f.resolve path))
      || is_protected_path path entries

  unfoldable pub is_path_within_workdir : String → Bool
  unfolding is_within
  is_path_within_workdir path = is_within f.cwd (f.resolve path)

  -- The directory itself, or the one that a file stands in.
  unfoldable pub base_dir : String → Location
  base_dir path =
      let resolved = f.resolve path in if f.is_dir resolved then resolved else drop_last resolved

  unfoldable pub any_match : String → List String → Bool
  any_match file [] = false
  any_match file (pattern ∷ patterns) = f.fnmatch file pattern || any_match file patterns

  unfoldable pub resolve_path_permission :
      String → List String → List String → Option PermissionContext
  unfolding any_match
  resolve_path_permission path allowlist denylist =
      let file : String = f.shown (f.resolve path) in
      if any_match file denylist
      then some
          (record { permission = ToolPermission.never; required_permissions = []; reason = none })
      else if any_match file allowlist
      then some
          (record { permission = ToolPermission.always; required_permissions = []; reason = none })
      else none

  unfoldable pub is_sensitive_file : String → List String → Bool
  is_sensitive_file file [] = false
  is_sensitive_file file (pattern ∷ patterns) =
      f.path_match file pattern || is_sensitive_file file patterns

  -- What a sensitive file and a path outside the working directory must be asked for.
  unfoldable pub sensitive_permissions : FileTool → String → List RequiredPermission
  sensitive_permissions tool path =
      if is_sensitive_file (f.to_posix_for_match (f.shown (f.resolve path))) tool.sensitive_patterns
      then record {
        scope = PermissionScope.file_pattern;
        invocation_pattern = f.name path;
        session_pattern = "*";
        label = "accessing sensitive files (" ++ (tool.tool_name ++ ")");
        escalated = false;
      }
        ∷ []
      else []

  unfoldable pub outside_permission : FileTool → String → RequiredPermission
  outside_permission tool path =
      let glob = f.glob_under (base_dir path) in
      record {
        scope = PermissionScope.outside_directory;
        invocation_pattern = glob;
        session_pattern = glob;
        label = "outside workdir (" ++ (glob ++ ")");
        escalated =
            tool.protect_outside_workdir
            && not (is_protected_path path tool.outside_workdir_exempt);
      }

  unfoldable pub ask_or_none : List RequiredPermission → Option PermissionContext
  ask_or_none [] = none
  ask_or_none (r ∷ rs) =
      some
        (record { permission = ToolPermission.ask; required_permissions = r ∷ rs; reason = none })

  -- The answer where no pattern of the lists decides.
  unfoldable pub by_place : FileTool → String → Option PermissionContext
  by_place tool path =
      let sensitive = sensitive_permissions tool path in
      if is_path_within_workdir path
      then ask_or_none sensitive
      else if is_never tool.permission
      then some
          (record { permission = ToolPermission.never; required_permissions = []; reason = none })
      else ask_or_none (append sensitive (outside_permission tool path ∷ []))

  unfoldable pub resolve_file_tool_permission : FileTool → String → Option PermissionContext
  resolve_file_tool_permission tool path =
      if is_protected_path path tool.protected_paths
      then some (record {
        permission = ToolPermission.never;
        required_permissions = [];
        reason = some (
            "Access denied: the path is protected by configuration ("
            ++ (tool.tool_name ++ "). Do not attempt to access it."));
      })
      else elim (resolve_path_permission path tool.allowlist tool.denylist) [
        | some result ↦ some result
        | none ↦ by_place tool path
      ]
