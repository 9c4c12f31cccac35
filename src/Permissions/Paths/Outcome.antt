-- ===== src/Permissions/Paths/Outcome.antt =====
-- What a file tool may do with a path: resolve_file_tool_permission of privibe/core/tools/utils.py.
use privibe.Prelude.{
  ◌≡◌, String, Bool, true, false, Option, none, some, List, [], ◌∷◌, ◌⊎◌, inl, inr, Bool-cases,
}
use privibe.Permissions.{ToolPermission, RequiredPermission, PermissionContext}
use privibe.Permissions.Paths.{
  FileSystem, FileTool, is_never, is_protected_path, is_path_within_workdir, any_match,
  resolve_path_permission, is_sensitive_file, sensitive_permissions, outside_permission, by_place,
  ask_or_none, resolve_file_tool_permission,
}
use privibe.Prelude.{not, ◌&&◌, refl, if◌then◌else◌}
use privibe.Permissions.{PermissionScope}
use privibe.Permissions.Paths.{base_dir, drop_last}

module _ (f : FileSystem) (tool : FileTool) where
  abbrev IsProtected : String → Type 0
  IsProtected path = is_protected_path f path tool.protected_paths ≡ true

  abbrev Matches : String → List String → Bool → Type 0
  Matches path patterns b = any_match f (f.shown (f.resolve path)) patterns ≡ b

  -- No pattern of the lists decides, and the path is not protected.
  abbrev IsUndecided : String → Type 0
  IsUndecided path =
      (is_protected_path f path tool.protected_paths ≡ false)
      × Matches path tool.denylist false
      × Matches path tool.allowlist false

  abbrev sensitive_test : String → Bool
  sensitive_test path =
      is_sensitive_file f (f.to_posix_for_match (f.shown (f.resolve path))) tool.sensitive_patterns

  abbrev IsSensitive : String → Bool → Type 0
  IsSensitive path b = sensitive_test path ≡ b

  -- The directory itself, or the one that a file stands in, with everything below it.
  abbrev directory_glob : String → String
  directory_glob path =
      let resolved = f.resolve path in
      f.glob_under (if f.is_dir resolved then resolved else drop_last resolved)

  -- Asks for every sensitive file.
  abbrev AsksFile : String → RequiredPermission → Type 0
  AsksFile path r =
      (r.scope ≡ PermissionScope.file_pattern)
      × (r.invocation_pattern ≡ f.name path)
      × (r.session_pattern ≡ "*")
      × (r.escalated ≡ false)

  -- Asks for the directory, and for a human alone if the setting says so and the path is not exempt.
  abbrev AsksDirectory : String → RequiredPermission → Type 0
  AsksDirectory path r =
      (r.scope ≡ PermissionScope.outside_directory)
      × (r.invocation_pattern ≡ directory_glob path)
      × (r.session_pattern ≡ directory_glob path)
      × (r.escalated ≡ (
          tool.protect_outside_workdir
          && not (is_protected_path f path tool.outside_workdir_exempt)))

  -- What is asked for a path that is or is not sensitive, outside the working directory or inside.
  abbrev Asks : Bool → Bool → String → List RequiredPermission → Type 0
  Asks true false path rs = (q : RequiredPermission) × (rs ≡ q ∷ []) × AsksFile path q
  Asks false true path rs = (r : RequiredPermission) × (rs ≡ r ∷ []) × AsksDirectory path r
  Asks true true path rs =
      (q : RequiredPermission) × (r : RequiredPermission) × (rs ≡ q ∷ r ∷ [])
      × AsksFile path q
      × AsksDirectory path r
  Asks false false path rs = ⊥

  -- What each answer says of the path.
  abbrev Grants : String → List RequiredPermission → ToolPermission → Type 0
  Grants path rs ToolPermission.always =
      (is_protected_path f path tool.protected_paths ≡ false)
      × Matches path tool.denylist false
      × Matches path tool.allowlist true
  Grants path rs ToolPermission.never =
      IsProtected path
      ⊎ Matches path tool.denylist true
      ⊎ ((is_path_within_workdir f path ≡ false) × (is_never tool.permission ≡ true))
  Grants path rs ToolPermission.ask =
      IsUndecided path
      × ((sensitive : Bool) × (outside : Bool) × IsSensitive path sensitive
          × (is_path_within_workdir f path ≡ not outside)
          × Asks sensitive outside path rs)

  abbrev pub Answers : String → Option PermissionContext → Type 0
  Answers path none =
      IsUndecided path × (is_path_within_workdir f path ≡ true) × IsSensitive path false
  Answers path (some ctx) = Grants path ctx.required_permissions ctx.permission

  by_place-Answers : (path : String) → IsUndecided path → Answers path (by_place f tool path)
  unfolding by_place sensitive_permissions outside_permission base_dir ask_or_none
  by_place-Answers path undecided = elim (Bool-cases (is_path_within_workdir f path)) [
    | inl inside ↦ elim (Bool-cases (sensitive_test path)) [
      | inl listed ↦
          rw (by_place, inside, listed)
            (undecided, (true, false, listed, inside, (_, refl, (refl, refl, refl, refl))))
      | inr plain ↦ rw (by_place, inside, plain) (undecided, inside, plain)
    ]
    | inr outside ↦ elim (Bool-cases (is_never tool.permission)) [
      | inl never ↦ rw (by_place, outside, never) (inr (inr (outside, never)))
      | inr asks ↦ elim (Bool-cases (sensitive_test path)) [
        | inl listed ↦
            rw (by_place, outside, asks, listed)
              (
                undecided,
                (
                  true,
                  true,
                  listed,
                  outside,
                  (_, _, refl, (refl, refl, refl, refl), (refl, refl, refl, refl)),
                ),
              )
        | inr plain ↦
            rw (by_place, outside, asks, plain)
              (undecided, (false, true, plain, outside, (_, refl, (refl, refl, refl, refl))))
      ]
    ]
  ]

  -- A file tool is refused a path only if it is protected, matches the denylist, or lies outside the
  -- working directory while the tool is never allowed; it runs without asking only on a path that is not
  -- protected, matches the allowlist and does not match the denylist. It asks for a sensitive path and for
  -- every other one outside: for sensitive files if the path is one, and after that, outside, for the
  -- directory of the path, for a human alone if the setting says so and the path is not exempt; and the tool's own setting decides only on a path inside that nothing
  -- else names.
  pub resolve_file_tool_permission-Answers :
      (path : String) → Answers path (resolve_file_tool_permission f tool path)
  unfolding resolve_file_tool_permission resolve_path_permission
  resolve_file_tool_permission-Answers path =
      let file = f.shown (f.resolve path) in
      elim (Bool-cases (is_protected_path f path tool.protected_paths)) [
        | inl protected ↦ rw (resolve_file_tool_permission, protected) (inl protected)
        | inr free ↦ elim (Bool-cases (any_match f file tool.denylist)) [
          | inl denied ↦
              rw (resolve_file_tool_permission, resolve_path_permission, free, denied)
                (inr (inl denied))
          | inr clear ↦ elim (Bool-cases (any_match f file tool.allowlist)) [
            | inl allowed ↦
                rw (resolve_file_tool_permission, resolve_path_permission, free, clear, allowed)
                  (free, clear, allowed)
            | inr unlisted ↦
                rw (resolve_file_tool_permission, resolve_path_permission, free, clear, unlisted)
                  (by_place-Answers path (free, clear, unlisted))
          ]
        ]
      ]
