-- ===== src/Orchestrate/Prompt.antt =====
-- The message of a role call: privibe/core/orchestrate/prompt.py. The texts of the roles are an argument.
use Prim.Native.String.{◌++◌}
use privibe.Prelude.{
  ℕ, String, Option, none, some, List, [], ◌∷◌, ◌++◌ as append, ◌==◌, map, if◌then◌else◌,
}
use privibe.Str.{strip, join, decimal}
use privibe.Ledger.{TaskItem, cap_text}
use privibe.Orchestrate.Verifier.{VerifierResult, passed, exit_text}

pub data Role : Type 0 where
  plan brainstorm manage execute finalize : Role

abbrev pub role_value : Role → String
role_value Role.plan = "plan"
role_value Role.brainstorm = "brainstorm"
role_value Role.manage = "manage"
role_value Role.execute = "execute"
role_value Role.finalize = "finalize"

-- ROLE_PLAN to ROLE_FINALIZE, the worker's with its task put in.
pub record RoleTexts : Type 0 where
  pub plan : String
  pub brainstorm : String
  pub manage : String
  pub execute : String → String
  pub finalize : String

unfoldable pub role_text : RoleTexts → Role → String → String
role_text texts Role.plan task = texts.plan
role_text texts Role.brainstorm task = texts.brainstorm
role_text texts Role.manage task = texts.manage
role_text texts Role.execute task = texts.execute (strip task)
role_text texts Role.finalize task = texts.finalize

-- `text if text else instead`
abbrev pub or_text : String → String → String
or_text text instead = if text == "" then instead else text

unfoldable pub scope_text : List String → String
scope_text [] = "- (none)"
scope_text (s ∷ scope) = join "\n" (map (λ line. "- " ++ line) (s ∷ scope))

unfoldable pub build_head : String → List String → String → String → String
unfolding scope_text
build_head goal scope done_command rendered_files =
    let verifier : String =
      if done_command == ""
      then "No verifier command. The manager decides when the job is done."
      else "Done when this command exits 0: `" ++ (done_command ++ "`") in
    "# Task\n\n"
    ++ (strip goal
        ++ ("\n\n"
            ++ (verifier
                ++ ("\n\nPaths the workers may edit:\n"
                    ++ (scope_text scope
                        ++ ("\n\n# Files (snapshot when the job started)\n\n"
                            ++ or_text rendered_files "(no files were pre-fed)\n"))))))

unfoldable pub render_task : TaskItem → String
render_task t = decimal t.id ++ (". [" ++ ((if t.done then "done" else "todo") ++ ("] " ++ t.text)))

unfoldable pub tasks_text : List TaskItem → String
tasks_text [] = "(none yet)"
tasks_text (t ∷ ts) = join "\n" (map render_task (t ∷ ts))

unfoldable pub render_verifier : Option VerifierResult → String
render_verifier none = "(not run yet)"
render_verifier (some result) =
    let verdict : String =
      if result.timed_out then "FAIL (timed out)" else if passed result then "PASS" else "FAIL" in
    verdict
    ++ (", exit code "
        ++ (exit_text result.exit_code
            ++ ("\n```\n" ++ (or_text (strip result.output) "(no output)" ++ "\n```"))))

-- What `build_tail` is given.
pub record TailParts : Type 0 where
  pub plan : String
  pub notes : String
  pub tasks : List TaskItem
  pub rendered_changed : String
  pub verifier : Option VerifierResult
  pub last_report : String
  pub report_chars : ℕ
  pub role_text : String
  pub direction : String

unfoldable pub build_tail : TailParts → String
unfolding tasks_text render_verifier
build_tail t =
    let report : List String =
      if t.last_report == ""
      then []
      else ("# Last worker report\n\n" ++ cap_text t.last_report t.report_chars) ∷ [] in
    let direction : List String =
      if strip t.direction == ""
      then []
      else ("# Direction from the user (given while the job was running; follow it)\n\n"
          ++ strip t.direction)
        ∷ [] in
    let parts : List String =
      ("# Plan\n\n" ++ or_text t.plan "(none yet)")
      ∷ ("# Notes\n\n" ++ or_text t.notes "(none yet)")
      ∷ ("# Task list\n\n" ++ tasks_text t.tasks)
      ∷ ("# Changed files (current content, supersedes the snapshot)\n\n"
          ++ or_text t.rendered_changed "(none changed yet)")
      ∷ ("# Last verifier run\n\n" ++ render_verifier t.verifier)
      ∷ [] in
    join "\n\n" (append parts (append report (append direction (strip t.role_text ∷ [])))) ++ "\n"

unfoldable pub build_message : String → String → String
build_message head tail = head ++ ("\n\n----- state (rewritten every call) -----\n\n" ++ tail)
