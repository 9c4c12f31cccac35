-- ===== src/Orchestrate/Rounds/Resolve.antt =====
-- What becomes of a manager's DONE.
use Prim.Native.String.{◌++◌ as str_append}
use privibe.Prelude.{
  ℕ, ◌≡◌, ◌≢◌, refl, sym, ap, ◌∙◌, String, Bool, true, false, not, Option, none, some, ◌==◌, ◌&&◌,
  ◌⊎◌, inl, inr, arith, Bool-cases,
}
use privibe.Ledger.{TaskItem}
use mathlib.Core.Path.{subst}
use privibe.Orchestrate.Bundle.{changed_files}
use privibe.Orchestrate.Run.{OutcomeStatus, Outcome, Setting, Run, pure, ◌>>=◌, ◌>>◌, if_some, note}
use privibe.Orchestrate.Run.Calls.{outcome}
use privibe.Orchestrate.Rounds.{
  passes, is_none, is_nil, verify_aloud, done_outcome, check_first, overrule_done, resolve_done,
}
use privibe.Orchestrate.Rounds.Quiet.{Quiet}
use privibe.Orchestrate.Rounds.Parts.{overrule_done-Steps}
use privibe.Orchestrate.Rounds.Ends.{
  Verified, IsTrue, GoesOn, outcome-IsTrue, GoesOn-trans, verify_aloud-Checked, Checked-Verified,
}
use privibe.Orchestrate.Rounds.{or_overrule}
use privibe.Ledger.Files.{log}
use privibe.Orchestrate.Rounds.Ends.{GoesOn-Quiet}

true-ne-false : true ≢ false
true-ne-false h = cc

no_command : (a b : Bool) → a ≡ true → (not a && b) ≢ true
no_command a b e h = cc (subst (λ x. (not x && b) ≡ true) e h)

module _ {W : Type 0} (s : Setting W) where
  -- A verifier that has just passed is verified.
  check_first_lem :
      (tag : String) (r : Run W)
      → passes r.verifier ≡ false
      → GoesOn s 0 r (check_first s tag r).1
        × (passes (check_first s tag r).1.verifier ≡ true
            → Verified s (check_first s tag r).1.verifier (check_first s tag r).1.world)
        × ((s.job.done_command == "") ≡ true → passes (check_first s tag r).1.verifier ≡ false)
  unfolding check_first ◌>>=◌ pure
  check_first_lem tag r fails =
      elim (Bool-cases (not (s.job.done_command == "") && is_none r.verifier)) [
        | inl runs ↦
            let title : String =
              str_append "verifier · " (str_append tag " (manager declared done)") in
            let checked = verify_aloud-Checked s title r in
            rw (check_first, runs)
              (
                checked.goes_on,
                λ h.
                    Checked-Verified s r (verify_aloud s title r) checked
                      (ap passes (sym checked.kept) ∙ h),
                λ e. absurd (no_command _ _ e runs),
              )
        | inr skips ↦
            rw (check_first, skips)
              (
                (refl, omega arith, refl, λ k. k),
                λ h. absurd (true-ne-false (sym h ∙ fails)),
                λ e. fails,
              )
      ]

  -- An answer to DONE: an outcome that is true, or a way to go on.
  abbrev Accepted : Run W → Option Outcome → Run W → Type 0
  Accepted r none r' = GoesOn s 0 r r' × (passes r'.verifier ≡ false)
  Accepted r (some x) r' = GoesOn s 0 r r' × IsTrue s x r'.world

  done_outcome-Accepted :
      (r : Run W)
      → (passes r.verifier ≡ true → Verified s r.verifier r.world)
      → ((s.job.done_command == "") ≡ true → passes r.verifier ≡ false)
      → Accepted r (done_outcome s r).0 (done_outcome s r).1
  unfolding done_outcome ◌>>=◌ ◌>>◌ pure note outcome log
  done_outcome-Accepted r verified fails = elim (Bool-cases (s.job.done_command == "")) [
    | inl e ↦
        elim (Bool-cases
          (is_none r.last_task_key && is_nil (changed_files s.files s.bundle r.world))) [
            | inl lazy ↦ rw (done_outcome, e, lazy) ((refl, omega arith, refl, λ k. k), fails e)
            | inr worked ↦
                rw (done_outcome, e, worked)
                  (
                    (refl, omega arith, refl, λ k. k),
                    outcome-IsTrue s OutcomeStatus.done_unverified _ r e,
                  )
          ]
    | inr e ↦ elim (Bool-cases (passes r.verifier)) [
      | inl good ↦
          rw (done_outcome, e, good)
            (
              (refl, omega arith, refl, λ k. k),
              outcome-IsTrue s OutcomeStatus.done _ r (verified good),
            )
      | inr bad ↦ rw (done_outcome, e, bad) ((refl, omega arith, refl, λ k. k), bad)
    ]
  ]

  abbrev pub Resolved : Run W → Outcome ⊎ Option TaskItem → Run W → Type 0
  Resolved r (inl x) r' = Accepted r (some x) r'
  Resolved r (inr t) r' = Accepted r none r'

  pub fails-Quiet :
      (n : ℕ) (r r' : Run W) → Quiet n r r' → passes r.verifier ≡ false → passes r'.verifier ≡ false
  fails-Quiet n r r' quiet fails = ap passes quiet.3 ∙ fails

  or_overrule-Resolved :
      (accepted : Option Outcome) (r r' : Run W)
      → Accepted r accepted r'
      → Resolved r (or_overrule s accepted r').0 (or_overrule s accepted r').1
  unfolding or_overrule if_some ◌>>=◌ pure
  or_overrule-Resolved none r r' (goes, fails) =
      let quiet = (overrule_done-Steps s).at r' in
      let r'' = (overrule_done s r').1 in
      (
        GoesOn-trans s 0 0 0 r r' r'' goes (GoesOn-Quiet s 0 r' r'' quiet fails) (omega arith),
        fails-Quiet 0 r' r'' quiet fails,
      )
  or_overrule-Resolved (some x) r r' h = h

  Accepted-after :
      (accepted : Option Outcome) (r r' r'' : Run W)
      → GoesOn s 0 r r'
      → Accepted r' accepted r''
      → Accepted r accepted r''
  Accepted-after none r r' r'' goes (goes', fails) =
      (GoesOn-trans s 0 0 0 r r' r'' goes goes' (omega arith), fails)
  Accepted-after (some x) r r' r'' goes (goes', is_true) =
      (GoesOn-trans s 0 0 0 r r' r'' goes goes' (omega arith), is_true)

  pub resolve_done-Resolved :
      (tag : String) (r : Run W)
      → passes r.verifier ≡ false
      → Resolved r (resolve_done s tag r).0 (resolve_done s tag r).1
  unfolding resolve_done ◌>>=◌ ◌>>◌
  resolve_done-Resolved tag r fails =
      let (goes, verified, no_verifier) = check_first_lem tag r fails in
      let r' = (check_first s tag r).1 in
      let out = done_outcome s r' in
      or_overrule-Resolved out.0 r out.1
        (Accepted-after out.0 r r' out.1 goes (done_outcome-Accepted r' verified no_verifier))
