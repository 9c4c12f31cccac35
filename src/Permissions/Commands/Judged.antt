-- ===== src/Permissions/Commands/Judged.antt =====
-- What resolve_permission of privibe/core/tools/builtins/bash.py makes of the commands and of the
-- directories that it collects.
use mathlib.Core.Path.{subst}
use privibe.Prelude.{
  ◌≡◌, refl, ◌∙◌, String, true, false, not, Option, none, some, List, [], ◌∷◌, ◌++◌, ◌⊎◌, inl, inr,
  ◌&&◌, Bool-cases, All,
}
use privibe.Str.{is_in, distinct, sorted}
use privibe.Str.Members.{is_in-sorted, is_in-distinct, is_in-append_right, is_in-append_left}
use privibe.Permissions.{ToolPermission, RequiredPermission, PermissionContext}
use privibe.Permissions.Paths.{is_protected_path}
use privibe.Permissions.Commands.{
  BashToolConfig, is_always, matches_pattern, find_denylist_match, any_of, is_standalone_denylisted,
  is_allowlisted, is_sensitive, denial, command_permissions, directory_permissions, all_clear,
  escalated_dirs, ask_for, allow_or_ask, judge,
}
use privibe.Permissions.Tokens.{
  Shell, no_texts, iter_candidate_tokens, first_protected, find_protected_token,
  collect_outside_dirs,
}
use privibe.Permissions.Commands.Covers.{
  has_pattern, has_pattern-directory_permissions, has_pattern-append_right, IsAllowed, IsAsked,
  asks_human, command_permissions-IsAsked, asks_human-append, asks_human-directory_permissions,
}
use privibe.Permissions.Commands.{never}
use Prim.Native.String.{◌++◌ as str_append}
use privibe.Permissions.Commands.Decides.{
  Decides, Decides-if, Decides-else, Decides-map, any_of-none, all_of-All, All-both, All-members,
  no_texts-nil, both_true, not-true,
}

module _ (sh : Shell) (c : BashToolConfig) where
  -- Neither a pattern of the denylist nor the list of standalone commands denies a command.
  abbrev pub IsUndenied : String → Type 0
  IsUndenied part =
      All (λ pattern. matches_pattern part pattern ≡ false) c.denylist
      × (is_standalone_denylisted sh c part ≡ false)

  abbrev pub IsUnprotected : String × String → Type 0
  IsUnprotected token = is_protected_path sh.files token.1 c.protected_paths ≡ false

  -- No command is denied, and no token of one is a protected path.
  abbrev pub IsClean : List String → Type 0
  IsClean parts = All IsUndenied parts × All IsUnprotected (iter_candidate_tokens sh parts)

  find_denylist_match-Decides :
      (part : String) (patterns : List String)
      → Decides
          (All (λ pattern. matches_pattern part pattern ≡ false) patterns)
          (find_denylist_match part patterns)
  unfolding find_denylist_match
  find_denylist_match-Decides part [] = tt
  find_denylist_match-Decides part (p ∷ ps) =
      Decides-if _ (matches_pattern part p) p (find_denylist_match part ps)
        (find_denylist_match-Decides part ps)

  denial-Decides : (parts : List String) → Decides (All IsUndenied parts) (denial sh c parts)
  unfolding denial
  denial-Decides [] = tt
  denial-Decides (part ∷ parts) =
      Decides-map (denial sh c (part ∷ parts)) (λ h. ((h.0, h.1.0), h.1.1))
        (λ h. (h.0.0, (h.0.1, h.1)))
        (Decides-else _ _ (find_denylist_match part c.denylist) _ _
          (find_denylist_match-Decides part c.denylist)
          (Decides-if _ (is_standalone_denylisted sh c part) _ (denial sh c parts)
            (denial-Decides parts)))

  first_protected-Decides :
      (paths : List String) (tokens : List (String × String))
      → Decides
          (All (λ t. is_protected_path sh.files t.1 paths ≡ false) tokens)
          (first_protected sh paths tokens)
  unfolding first_protected
  first_protected-Decides paths [] = tt
  first_protected-Decides paths ((raw, expanded) ∷ tokens) =
      Decides-if _ (is_protected_path sh.files expanded paths) raw (first_protected sh paths tokens)
        (first_protected-Decides paths tokens)

  unprotected_everywhere :
      (tokens : List (String × String))
      → All (λ t. is_protected_path sh.files t.1 [] ≡ false) tokens
  unfolding is_protected_path
  unprotected_everywhere [] = tt
  unprotected_everywhere (t ∷ ts) = (refl, unprotected_everywhere ts)

  find_protected_token-Decides :
      (parts paths : List String)
      → Decides
          (All (λ t. is_protected_path sh.files t.1 paths ≡ false) (iter_candidate_tokens sh parts))
          (find_protected_token sh parts paths)
  unfolding find_protected_token
  find_protected_token-Decides parts [] = unprotected_everywhere (iter_candidate_tokens sh parts)
  find_protected_token-Decides parts (p ∷ ps) =
      first_protected-Decides (p ∷ ps) (iter_candidate_tokens sh parts)

  all_clear-IsAllowed :
      (parts : List String) → all_clear sh c parts ≡ true → All (IsAllowed sh c) parts
  unfolding all_clear
  all_clear-IsAllowed parts e =
      let h = both_true (not (any_of (is_sensitive sh c) parts)) _ e in
      All-both _ _ parts (any_of-none (is_sensitive sh c) parts (not-true _ h.0))
        (all_of-All (is_allowlisted sh c) parts h.1)

  -- What a permission says of the commands and the directories collected, and the required permissions if it is to ask.
  abbrev pub Settles : List String → List RequiredPermission → ToolPermission → Type 0
  Settles parts rs ToolPermission.always =
      IsClean parts
      × (escalated_dirs sh c parts ≡ [])
      × ((is_always c.permission ≡ true)
          ⊎ (All (IsAllowed sh c) parts × (collect_outside_dirs sh parts ≡ [])))
  Settles parts rs ToolPermission.never = ¬ IsClean parts
  Settles parts rs ToolPermission.ask =
      IsClean parts
      × All (IsAsked sh c rs) parts
      × All (λ g. asks_human g rs ≡ true) (escalated_dirs sh c parts)
      × All (λ g. has_pattern g rs ≡ true) (collect_outside_dirs sh parts)

  abbrev pub Judges : List String → Option PermissionContext → Type 0
  Judges parts none = IsClean parts × (escalated_dirs sh c parts ≡ [])
  Judges parts (some ctx) = Settles parts ctx.required_permissions ctx.permission

  ask_for-Judges :
      (parts : List String) (rs : List RequiredPermission)
      → Settles parts rs ToolPermission.ask
      → Judges parts (ask_for sh c rs)
  unfolding ask_for asks_human
  ask_for-Judges parts [] (clean, asked, humans, outside) =
      (clean, none_left (escalated_dirs sh c parts) humans)
    where
      none_left : (gs : List String) → All (λ g. asks_human g [] ≡ true) gs → gs ≡ []
      none_left [] h = refl
      none_left (g ∷ gs) h = let no : false ≡ true = h.0 in cc
  ask_for-Judges parts (r ∷ rs) h = h

  asked-Judges :
      (parts escalated outside : List String)
      → escalated ≡ escalated_dirs sh c parts
      → outside ≡ collect_outside_dirs sh parts
      → IsClean parts
      → Settles parts
          (command_permissions sh c [] parts
            ++ directory_permissions sh c escalated (sorted (distinct (outside ++ escalated))))
          ToolPermission.ask
  asked-Judges parts escalated outside e o clean =
      let globs = sorted (distinct (outside ++ escalated)) in
      let ds = directory_permissions sh c escalated globs in
      let listed = λ (g : String) (h : is_in g (outside ++ escalated) ≡ true).
        is_in-sorted g (distinct (outside ++ escalated))
        ∙ is_in-distinct g (outside ++ escalated) h in
      (
        clean,
        command_permissions-IsAsked sh c parts ds,
        subst (All (λ g. asks_human g (command_permissions sh c [] parts ++ ds) ≡ true)) e (
            All-members _ escalated (λ g h.
              asks_human-append sh c g (command_permissions sh c [] parts) ds (
                asks_human-directory_permissions sh c escalated globs g
                  (listed g (is_in-append_right g outside escalated h)) h))),
        subst (All (λ g. has_pattern g (command_permissions sh c [] parts ++ ds) ≡ true)) o (
            All-members _ outside (λ g h.
              has_pattern-append_right sh c g (command_permissions sh c [] parts) ds (
                has_pattern-directory_permissions sh c escalated globs g
                  (listed g (is_in-append_left g outside escalated h))))),
      )

  allow_or_ask-Judges :
      (parts : List String) → IsClean parts → Judges parts (allow_or_ask sh c parts)
  unfolding allow_or_ask
  allow_or_ask-Judges parts clean =
      let escalated = escalated_dirs sh c parts in
      let outside = collect_outside_dirs sh parts in
      elim (Bool-cases (no_texts escalated && is_always c.permission)) [
        | inl e ↦
            let both = both_true (no_texts escalated) _ e in
            rw (allow_or_ask, e) (clean, no_texts-nil escalated both.0, inl both.1)
        | inr n ↦
            elim (Bool-cases (all_clear sh c parts && (no_texts outside && no_texts escalated))) [
              | inl e ↦
                  let both = both_true (all_clear sh c parts) _ e in
                  let dirs = both_true (no_texts outside) _ both.1 in
                  rw (allow_or_ask, n, e)
                    (
                      clean,
                      no_texts-nil escalated dirs.1,
                      inr (all_clear-IsAllowed parts both.0, no_texts-nil outside dirs.0),
                    )
              | inr m ↦
                  rw (allow_or_ask, n, m)
                    (ask_for-Judges parts _ (asked-Judges parts escalated outside refl refl clean))
            ]
      ]

  pub judge-Judges : (parts : List String) → Judges parts (judge sh c parts)
  unfolding judge
  judge-Judges parts =
      on (denial sh c parts) (find_protected_token sh parts c.protected_paths)
        (denial-Decides parts) (find_protected_token-Decides parts c.protected_paths)
    where
      on :
          (denied hit : Option String)
          → Decides (All IsUndenied parts) denied
          → Decides (All IsUnprotected (iter_candidate_tokens sh parts)) hit
          → Judges parts (elim denied [
            | some reason ↦ some (never sh c reason)
            | none ↦ elim hit [
              | some h ↦ some (
                  never sh c (
                    str_append "Command denied: '"
                      (str_append h "' refers to a protected path. Do not attempt to access it.")))
              | none ↦ allow_or_ask sh c parts
            ]
          ])
      on (some reason) hit h k = λ clean. h clean.0
      on none (some token) h k = λ clean. k clean.1
      on none none h k = allow_or_ask-Judges parts (h, k)
