-- ===== src/Permissions.antt =====
-- Which tool calls run, and who is asked: privibe/core/tools/permissions.py, wildcard_match of
-- privibe/core/tools/utils.py, and _should_execute_tool, _ask_approval and the session rules of
-- privibe/core/agent_loop.py. The times of a decision are left out.
pub mod Decisions
pub mod Paths
pub mod Tokens
pub mod Commands
mod Examples
use Prim.Native.String.{◌++◌ as str_append}
use Prim.Native.String
use privibe.Prelude.{
  ℕ, String, Bool, true, false, Option, none, some, List, [], ◌∷◌, ◌++◌, not, ◌&&◌, ◌||◌, eqb, ◌==◌,
  if◌then◌else◌, truthy, or_empty,
}

pub data PermissionScope : Type 0 where
  command_pattern outside_directory file_pattern url_pattern : PermissionScope

abbrev scope_index : PermissionScope → ℕ
scope_index PermissionScope.command_pattern = 0
scope_index PermissionScope.outside_directory = 1
scope_index PermissionScope.file_pattern = 2
scope_index PermissionScope.url_pattern = 3

abbrev pub same_scope : PermissionScope → PermissionScope → Bool
same_scope a b = eqb (scope_index a) (scope_index b)

pub data ToolPermission : Type 0 where
  always never ask : ToolPermission

pub record RequiredPermission : Type 0 where
  pub scope : PermissionScope
  pub invocation_pattern : String
  pub session_pattern : String
  pub label : String
  pub escalated : Bool

pub record PermissionContext : Type 0 where
  pub permission : ToolPermission
  pub required_permissions : List RequiredPermission
  pub reason : Option String

-- An ApprovedRule or a DeniedRule.
pub record Rule : Type 0 where
  pub tool_name : String
  pub scope : PermissionScope
  pub session_pattern : String

pub data ToolExecutionResponse : Type 0 where
  skip execute : ToolExecutionResponse

pub record ToolDecision : Type 0 where
  pub verdict : ToolExecutionResponse
  pub approval_type : ToolPermission
  pub feedback : Option String

pub data ApprovalResponse : Type 0 where
  yes no nanny nanny_always : ApprovalResponse

-- Who was asked about a call.
pub data Ask : Type 0 where
  human_asked nanny_asked : Ask

pub record Session : Type 0 where
  pub auto_approve : Bool
  pub nanny_reviews_escalated : Bool
  pub session_rules : List Rule
  pub session_denials : List Rule
  pub nanny_delegations : List Rule

-- The callback is given whether a review is attached; the nanny answers whether it approves.
pub record Outside : Type 0 where
  pub approval_callback :
      Option (String → List RequiredPermission → Bool → ApprovalResponse × Option String)
  pub nanny : Option (String → List RequiredPermission → Bool)

pub record Outcome : Type 0 where
  pub decision : ToolDecision
  pub session : Session
  pub asks : List Ask

abbrev decided :
    ToolExecutionResponse → ToolPermission → Option String → Session → List Ask → Outcome
decided v p f s asks = record {
  decision = record { verdict = v; approval_type = p; feedback = f };
  session = s;
  asks = asks;
}

unfoldable pub any_escalated : List RequiredPermission → Bool
any_escalated [] = false
any_escalated (rp ∷ rps) = rp.escalated || any_escalated rps

unfoldable pub joined_labels : List RequiredPermission → String
joined_labels [] = ""
joined_labels (rp ∷ []) = rp.label
joined_labels (rp ∷ rp' ∷ rps) = str_append rp.label (str_append ", " (joined_labels (rp' ∷ rps)))

abbrev pub is_empty : List RequiredPermission → Bool
is_empty [] = true
is_empty (rp ∷ rps) = false

-- `ApprovedRule(…)` for each permission.
unfoldable pub rules_for : String → List RequiredPermission → List Rule
rules_for name [] = []
rules_for name (rp ∷ rps) =
    record { tool_name = name; scope = rp.scope; session_pattern = rp.session_pattern }
    ∷ rules_for name rps

-- `pattern[:-2]`.
unfoldable pub without_last_two : String → String
without_last_two String.[] = ""
without_last_two (String.◌∷◌ c String.[]) = ""
without_last_two (String.◌∷◌ c (String.◌∷◌ d String.[])) = ""
without_last_two (String.◌∷◌ c (String.◌∷◌ d (String.◌∷◌ e cs))) =
    String.◌∷◌ c (without_last_two (String.◌∷◌ d (String.◌∷◌ e cs)))

-- `pattern.endswith(" *")`.
unfoldable pub ends_optional : String → Bool
ends_optional String.[] = false
ends_optional (String.◌∷◌ c cs) = (String.◌∷◌ c cs == " *") || ends_optional cs

-- `fnmatch` is the standard library's, `class_group` the permission_group of a tool's class,
-- `config_permission` what the configuration says of a tool.
module _ (fnmatch : String → String → Bool) (class_group : String → Option String)
    (config_permission : String → ToolPermission) where
  unfoldable pub wildcard_match : String → String → Bool
  unfolding ends_optional without_last_two
  wildcard_match text pattern =
      fnmatch text pattern || (ends_optional pattern && fnmatch text (without_last_two pattern))

  unfoldable pub permission_group : String → String
  permission_group name = if truthy (class_group name) then or_empty (class_group name) else name

  unfoldable pub rule_applies : String → RequiredPermission → Rule → Bool
  unfolding permission_group wildcard_match
  rule_applies name rp rule =
      (permission_group rule.tool_name == permission_group name)
      && (same_scope rule.scope rp.scope
          && wildcard_match rp.invocation_pattern rule.session_pattern)

  -- `_is_permission_covered` with the session's rules, `_is_permission_denied` with its denials.
  unfoldable pub has_rule : List Rule → String → RequiredPermission → Bool
  unfolding rule_applies
  has_rule [] name rp = false
  has_rule (rule ∷ rules) name rp = rule_applies name rp rule || has_rule rules name rp

  unfoldable pub is_delegated_to_nanny : List Rule → String → RequiredPermission → Bool
  unfolding wildcard_match
  is_delegated_to_nanny [] name rp = false
  is_delegated_to_nanny (rule ∷ rules) name rp =
      ((rule.tool_name == name)
        && (same_scope rule.scope rp.scope
            && wildcard_match rp.invocation_pattern rule.session_pattern))
      || is_delegated_to_nanny rules name rp

  -- The permissions for which there is a rule, or, with `false`, for which there is none.
  unfoldable pub with_rule :
      Bool → List Rule → String → List RequiredPermission → List RequiredPermission
  unfolding has_rule
  with_rule wanted rules name [] = []
  with_rule wanted rules name (rp ∷ rps) =
      let rest = with_rule wanted rules name rps in
      if has_rule rules name rp
      then (if wanted then rp ∷ rest else rest)
      else (if wanted then rest else rp ∷ rest)

  unfoldable pub all_delegated : List Rule → String → List RequiredPermission → Bool
  unfolding is_delegated_to_nanny
  all_delegated rules name [] = true
  all_delegated rules name (rp ∷ rps) =
      (not rp.escalated || is_delegated_to_nanny rules name rp) && all_delegated rules name rps

  unfoldable pub nanny_may_review : Session → String → List RequiredPermission → Bool
  unfolding any_escalated all_delegated
  nanny_may_review s name rps =
      not (any_escalated rps)
      || (s.nanny_reviews_escalated || all_delegated s.nanny_delegations name rps)

  unfoldable pub delegate_to_nanny : String → List RequiredPermission → Session → Session
  unfolding rules_for
  delegate_to_nanny name rps s = record s {
    nanny_delegations = s.nanny_delegations ++ rules_for name rps;
  }

  -- `approve_always` where permissions are required.
  unfoldable pub approve_always : String → List RequiredPermission → Session → Session
  unfolding rules_for
  approve_always name rps s = record s { session_rules = s.session_rules ++ rules_for name rps }

  unfoldable pub deny_always : String → List RequiredPermission → Session → Session
  unfolding rules_for
  deny_always name rps s = record s { session_denials = s.session_denials ++ rules_for name rps }

  unfoldable pub ask_via_nanny :
      (String → List RequiredPermission → Bool → ApprovalResponse × Option String)
      → (String → List RequiredPermission → Bool)
      → String
      → List RequiredPermission
      → Session
      → List Ask
      → Outcome
  ask_via_nanny callback review name rps s asks =
      if review name rps
      then decided ToolExecutionResponse.execute ToolPermission.ask none s
          (asks ++ Ask.nanny_asked ∷ [])
      else (let answer = callback name rps true in
          let asks' = asks ++ Ask.nanny_asked ∷ Ask.human_asked ∷ [] in
          elim answer.0 [
            | ApprovalResponse.yes ↦
                decided ToolExecutionResponse.execute ToolPermission.ask answer.1 s asks'
            | _ ↦ decided ToolExecutionResponse.skip ToolPermission.ask answer.1 s asks'
          ])

  -- What a human's answer to a call without a review does.
  unfoldable pub answered :
      (String → List RequiredPermission → Bool → ApprovalResponse × Option String)
      → Option (String → List RequiredPermission → Bool)
      → String
      → List RequiredPermission
      → Session
      → Outcome
  unfolding ask_via_nanny delegate_to_nanny
  answered callback attached name rps s =
      let answer = callback name rps false in
      let asked = Ask.human_asked ∷ [] in
      let unattached =
        if truthy answer.1
        then answer.1
        else some "No nanny is attached; the call was not allowed." in
      elim answer.0 [
        | ApprovalResponse.yes ↦
            decided ToolExecutionResponse.execute ToolPermission.ask answer.1 s asked
        | ApprovalResponse.no ↦
            decided ToolExecutionResponse.skip ToolPermission.ask answer.1 s asked
        | ApprovalResponse.nanny ↦ elim attached [
          | none ↦ decided ToolExecutionResponse.skip ToolPermission.ask unattached s asked
          | some review ↦ ask_via_nanny callback review name rps s asked
        ]
        | ApprovalResponse.nanny_always ↦ elim attached [
          | none ↦ decided ToolExecutionResponse.skip ToolPermission.ask unattached s asked
          | some review ↦
              ask_via_nanny callback review name rps (delegate_to_nanny name rps s) asked
        ]
      ]

  unfoldable pub ask_approval : Outside → String → List RequiredPermission → Session → Outcome
  unfolding nanny_may_review answered ask_via_nanny
  ask_approval o name rps s = elim o.approval_callback [
    | none ↦
        decided ToolExecutionResponse.skip ToolPermission.ask (some "Tool execution not permitted.")
          s []
    | some callback ↦ elim o.nanny [
      | none ↦ answered callback none name rps s
      | some review ↦
          if nanny_may_review s name rps
          then ask_via_nanny callback review name rps s []
          else answered callback (some review) name rps s
    ]
  ]

  -- The case of `ask`, where auto-approval does not apply.
  unfoldable pub decide_by_rules : Outside → String → List RequiredPermission → Session → Outcome
  unfolding with_rule ask_approval joined_labels
  decide_by_rules o name rps s =
      let denied = with_rule true s.session_denials name rps in
      let uncovered = with_rule false s.session_rules name rps in
      if not (is_empty denied)
      then decided ToolExecutionResponse.skip ToolPermission.never
          (some (
            str_append "Denied for this session: "
              (str_append (joined_labels denied) ". Do not attempt this again.")))
          s []
      else (if not (is_empty rps) && is_empty uncovered
          then decided ToolExecutionResponse.execute ToolPermission.always none s []
          else ask_approval o name uncovered s)

  -- The context that a tool resolves, or the one of its configuration.
  unfoldable pub context_or : String → Option PermissionContext → PermissionContext
  context_or name none = record {
    permission = config_permission name;
    required_permissions = [];
    reason = none;
  }
  context_or name (some ctx) = ctx

  unfoldable pub should_execute_tool :
      Outside → String → Option PermissionContext → Session → Outcome
  unfolding context_or decide_by_rules any_escalated
  should_execute_tool o name resolved s =
      let ctx = context_or name resolved in
      elim ctx.permission [
        | ToolPermission.never ↦
            decided ToolExecutionResponse.skip ToolPermission.never
              (if truthy ctx.reason
                then ctx.reason
                else some (str_append "Tool '" (str_append name "' is not allowed in this mode")))
              s []
        | ToolPermission.always ↦
            decided ToolExecutionResponse.execute ToolPermission.always none s []
        | ToolPermission.ask ↦
            if s.auto_approve && not (any_escalated ctx.required_permissions)
            then decided ToolExecutionResponse.execute ToolPermission.always none s []
            else decide_by_rules o name ctx.required_permissions s
      ]
