-- ===== src/Permissions/Decisions.antt =====
-- What the decisions on tool calls promise.
use privibe.Prelude.{
  String, Bool, true, false, Option, some, List, [], ◌∷◌, ◌++◌, not, ◌&&◌, ◌||◌, ◌≡◌, inl, inr,
  refl, ap, ◌∙◌, All, Bool-cases, eq_iff,
}
use privibe.Permissions.{
  PermissionScope, same_scope, ToolPermission, RequiredPermission, Rule, ToolExecutionResponse,
  Session, Outside, Outcome, any_escalated, has_rule, with_rule, decide_by_rules, context_or,
  should_execute_tool, approve_always, rules_for, rule_applies, permission_group, wildcard_match,
}

-- The call runs, or it does not.
abbrev pub Runs : Outcome → Type 0
Runs out = out.decision.verdict ≡ ToolExecutionResponse.execute

same_scope_refl : (a : PermissionScope) → same_scope a a ≡ true
same_scope_refl PermissionScope.command_pattern = refl
same_scope_refl PermissionScope.outside_directory = refl
same_scope_refl PermissionScope.file_pattern = refl
same_scope_refl PermissionScope.url_pattern = refl

or-true : (a : Bool) → (a || true) ≡ true
or-true true = refl
or-true false = refl

module _ (fnmatch : String → String → Bool) (class_group : String → Option String)
    (config_permission : String → ToolPermission) where
  abbrev pub HasRule : Bool → List Rule → String → RequiredPermission → Type 0
  HasRule b rules name rp = has_rule fnmatch class_group config_permission rules name rp ≡ b

  with_rule-none :
      (rules : List Rule) (name : String) (rps : List RequiredPermission)
      → All (HasRule false rules name) rps
      → with_rule fnmatch class_group config_permission true rules name rps ≡ []
  unfolding with_rule
  with_rule-none rules name [] h = refl
  with_rule-none rules name (rp ∷ rps) h = rw (h.0) (with_rule-none rules name rps h.1)

  with_rule-All :
      (rules : List Rule) (name : String) (rps : List RequiredPermission)
      → All (HasRule true rules name) rps
      → with_rule fnmatch class_group config_permission false rules name rps ≡ []
  unfolding with_rule
  with_rule-All rules name [] h = refl
  with_rule-All rules name (rp ∷ rps) h = rw (h.0) (with_rule-All rules name rps h.1)

  HasRule-append :
      (rules more : List Rule) (name : String) (rp : RequiredPermission)
      → HasRule true more name rp
      → HasRule true (rules ++ more) name rp
  unfolding has_rule
  HasRule-append [] more name rp h = h
  HasRule-append (rule ∷ rules) more name rp h =
      ap (rule_applies fnmatch class_group config_permission name rp rule ||◌)
        (HasRule-append rules more name rp h)
      ∙ or-true (rule_applies fnmatch class_group config_permission name rp rule)

  All-append :
      (rules more : List Rule) (name : String) (rps : List RequiredPermission)
      → All (HasRule true more name) rps
      → All (HasRule true (rules ++ more) name) rps
  All-append rules more name [] h = tt
  All-append rules more name (rp ∷ rps) h =
      (HasRule-append rules more name rp h.0, All-append rules more name rps h.1)

  -- The pattern that is recorded for the session matches the call that it was made for.
  abbrev pub MatchesItself : RequiredPermission → Type 0
  MatchesItself rp =
      wildcard_match fnmatch class_group config_permission rp.invocation_pattern rp.session_pattern
      ≡ true

  rule_applies_self :
      (name : String) (rp : RequiredPermission)
      → MatchesItself rp
      → rule_applies fnmatch class_group config_permission name rp
          (record { tool_name = name; scope = rp.scope; session_pattern = rp.session_pattern })
        ≡ true
  unfolding rule_applies
  rule_applies_self name rp h =
      rw
        (
          (eq_iff (permission_group fnmatch class_group config_permission name)
                (permission_group fnmatch class_group config_permission name)).1
              refl,
          same_scope_refl rp.scope,
          h,
        )
        refl

  rules_for-cover :
      (name : String) (rps : List RequiredPermission)
      → All MatchesItself rps
      → All (HasRule true (rules_for name rps) name) rps
  unfolding rules_for has_rule
  rules_for-cover name [] h = tt
  rules_for-cover name (rp ∷ rps) h = (
    ap (◌|| has_rule fnmatch class_group config_permission (rules_for name rps) name rp)
        (rule_applies_self name rp h.0),
    All-append
        (record { tool_name = name; scope = rp.scope; session_pattern = rp.session_pattern } ∷ [])
        (rules_for name rps) name rps (rules_for-cover name rps h.1),
  )

  -- After "allow always" the same call runs and nobody is asked, if the patterns recorded match the call
  -- and no rule of the session denies it.
  pub should_execute_tool-approve_always :
      (o : Outside) (name : String) (rp : RequiredPermission) (rps : List RequiredPermission)
      (reason : Option String) (s : Session)
      → All MatchesItself (rp ∷ rps)
      → All (HasRule false s.session_denials name) (rp ∷ rps)
      → let out =
          should_execute_tool fnmatch class_group config_permission o name
            (some (record {
              permission = ToolPermission.ask;
              required_permissions = rp ∷ rps;
              reason = reason;
            }))
            (approve_always fnmatch class_group config_permission name (rp ∷ rps) s) in
        Runs out × (out.asks ≡ [])
  unfolding should_execute_tool context_or approve_always decide_by_rules
  should_execute_tool-approve_always o name rp rps reason s matching allowed =
      elim (Bool-cases (s.auto_approve && not (any_escalated (rp ∷ rps)))) [
        | inl auto ↦ rw auto (refl, refl)
        | inr asked ↦
            rw
              (
                asked,
                with_rule-none s.session_denials name (rp ∷ rps) allowed,
                with_rule-All (s.session_rules ++ rules_for name (rp ∷ rps)) name (rp ∷ rps) (
                    All-append s.session_rules (rules_for name (rp ∷ rps)) name (rp ∷ rps)
                      (rules_for-cover name (rp ∷ rps) matching)),
              )
              (refl, refl)
      ]
