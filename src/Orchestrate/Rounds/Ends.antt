-- ===== src/Orchestrate/Rounds/Ends.antt =====
-- How a run ends.
use privibe.Prelude.{
  ℕ, ◌+◌, ◌≤◌, ◌≡◌, refl, sym, ap, ◌∙◌, String, true, false, Option, some, [], ◌∷◌, ◌++◌, ◌==◌, inl,
  inr, arith, Bool-cases, if◌then◌else◌, get_last?, get_last?-snoc,
}
use privibe.Orchestrate.Verifier.{VerifierResult, passed, verifier_result}
use privibe.Orchestrate.Prompt.{Role}
use Prim.Native.String.{◌++◌ as str_append}
use privibe.Orchestrate.Run.{
  OutcomeStatus, Outcome, Event, Setting, Run, pure, ◌>>=◌, ◌>>◌, emit, say, max_rounds,
}
use privibe.Orchestrate.Run.Calls.{outcome, verify}
use privibe.Orchestrate.Rounds.{
  passes, finish, verify_aloud, judge_finalizer, run_finalizer, finalize,
}
use privibe.Orchestrate.Rounds.Quiet.{
  endings, endings-append, endings_say, NoPass, Quiet, Quiet-refl, Steps-note, Steps-say,
  Steps-modify, step, step_then,
}
use privibe.Orchestrate.Rounds.Parts.{ask-Steps}
use privibe.Ledger.Files.{log}

module _ {W : Type 0} (s : Setting W) where
  -- What a run of the job's command in a world gives.
  abbrev pub result_in : W → VerifierResult
  result_in w =
      verifier_result s.config.timeout_text s.config.verifier_output_chars
        (s.run_process s.job.done_command w).0

  -- This is the result of the job's command, it passed, and nothing was done after it.
  abbrev pub Verified : Option VerifierResult → W → Type 0
  Verified v now =
      (w : W) × (v ≡ some (result_in w))
      × (passed (result_in w) ≡ true)
      × (now ≡ (s.run_process s.job.done_command w).1)

  -- What an outcome says is so.
  pub record IsTrue (x : Outcome) (now : W) : Type 0 where
    pub verified : x.status ≡ OutcomeStatus.done → Verified x.verifier now
    pub unverified : x.status ≡ OutcomeStatus.done_unverified → (s.job.done_command == "") ≡ true
    pub exhausted : x.status ≡ OutcomeStatus.rounds_exhausted → max_rounds s ≤ x.rounds

  -- After at most n more calls the run has yielded one outcome more, the last of all, and it is true.
  pub record Ended (n : ℕ) (r : Run W) (out : Outcome × Run W) : Type 0 where
    pub rounds : out.1.rounds ≡ r.rounds
    pub calls : out.1.calls ≤ r.calls + n
    pub one : endings out.1.events ≡ endings r.events ++ out.0 ∷ []
    pub last : get_last? out.1.events ≡ some (Event.ended out.0)
    pub is_true : IsTrue out.0 out.1.world
    pub kept : NoPass r.ledger.state → NoPass out.1.ledger.state

  -- What must be so for an outcome of this status to be true.
  abbrev pub Holds : OutcomeStatus → Run W → Type 0
  Holds OutcomeStatus.done r = Verified r.verifier r.world
  Holds OutcomeStatus.done_unverified r = (s.job.done_command == "") ≡ true
  Holds OutcomeStatus.rounds_exhausted r = max_rounds s ≤ r.rounds
  Holds _ r = Unit

  pub outcome-IsTrue :
      (status : OutcomeStatus) (detail : String) (r : Run W)
      → Holds status r
      → IsTrue (outcome s status detail r).0 r.world
  unfolding outcome
  outcome-IsTrue OutcomeStatus.done detail r h = record {
    verified = λ e. h;
    unverified = λ e. cc;
    exhausted = λ e. cc;
  }
  outcome-IsTrue OutcomeStatus.done_unverified detail r h = record {
    verified = λ e. cc;
    unverified = λ e. h;
    exhausted = λ e. cc;
  }
  outcome-IsTrue OutcomeStatus.rounds_exhausted detail r h = record {
    verified = λ e. cc;
    unverified = λ e. cc;
    exhausted = λ e. h;
  }
  outcome-IsTrue OutcomeStatus.stalled detail r h = record {
    verified = λ e. cc;
    unverified = λ e. cc;
    exhausted = λ e. cc;
  }
  outcome-IsTrue OutcomeStatus.cancelled detail r h = record {
    verified = λ e. cc;
    unverified = λ e. cc;
    exhausted = λ e. cc;
  }

  pub finish-Ended :
      (status : OutcomeStatus) (detail : String) (r : Run W)
      → Holds status r
      → Ended 0 r (finish s status detail r)
  unfolding finish outcome emit pure ◌>>=◌ ◌>>◌ endings log
  finish-Ended status detail r h = record {
    rounds = refl;
    calls = omega arith;
    one = endings-append r.events _;
    last = get_last?-snoc r.events _;
    is_true = outcome-IsTrue status detail r h;
    kept = λ k. k;
  }

  -- At most n more calls, the same round and no outcome yet.
  abbrev pub GoesOn : ℕ → Run W → Run W → Type 0
  GoesOn n r r' =
      (r'.rounds ≡ r.rounds)
      × (r'.calls ≤ r.calls + n)
      × (endings r'.events ≡ endings r.events)
      × (NoPass r.ledger.state → NoPass r'.ledger.state)

  pub Ended-after :
      (m n k : ℕ) (r r' : Run W) (out : Outcome × Run W)
      → GoesOn m r r'
      → Ended n r' out
      → m + n ≤ k
      → Ended k r out
  Ended-after m n k r r' out (rounds, calls, ends, keeps) e le = record {
    rounds = e.rounds ∙ rounds;
    calls = omega (arith, e.calls);
    one = e.one ∙ ap (◌++ out.0 ∷ []) ends;
    last = e.last;
    is_true = e.is_true;
    kept = λ k. e.kept (keeps k);
  }

  pub GoesOn-trans :
      (m n k : ℕ) (r r' r'' : Run W) → GoesOn m r r' → GoesOn n r' r'' → m + n ≤ k → GoesOn k r r''
  GoesOn-trans m n k r r' r'' (a, b, c, d) (a', b', c', d') le =
      (a' ∙ a, omega arith, c' ∙ c, λ k. d' (d k))

  pub GoesOn-Quiet :
      (n : ℕ) (r r' : Run W) → Quiet n r r' → passes r.verifier ≡ false → GoesOn n r r'
  GoesOn-Quiet n r r' (a, b, c, d, e) fails = (a, b, c, e fails)

  -- The command has been run, and its result is kept.
  pub record Checked (r : Run W) (out : VerifierResult × Run W) : Type 0 where
    pub goes_on : GoesOn 0 r out.1
    pub kept : out.1.verifier ≡ some out.0
    pub result : out.0 ≡ result_in r.world
    pub world : out.1.world ≡ (s.run_process s.job.done_command r.world).1

  pub verify_aloud-Checked : (title : String) (r : Run W) → Checked r (verify_aloud s title r)
  unfolding verify_aloud verify say emit pure ◌>>=◌ ◌>>◌ log
  verify_aloud-Checked title r = record {
    goes_on = (
      refl,
      omega arith,
      endings_say (r.events ++ Event.progress title false "" ∷ []) _ false ""
          ∙ endings_say r.events title false "",
      λ k. k,
    );
    kept = refl;
    result = refl;
    world = refl;
  }

  -- A result that passes is verified.
  pub Checked-Verified :
      (r : Run W) (out : VerifierResult × Run W)
      → Checked r out
      → passed out.0 ≡ true
      → Verified out.1.verifier out.1.world
  Checked-Verified r out c h =
      (r.world, c.kept ∙ ap some c.result, ap passed (sym c.result) ∙ h, c.world)

  -- A status that the loop ends with unless the finalizer finishes the job.
  abbrev pub IsOpen : OutcomeStatus → Run W → Type 0
  IsOpen OutcomeStatus.rounds_exhausted r = max_rounds s ≤ r.rounds
  IsOpen OutcomeStatus.stalled r = Unit
  IsOpen _ r = ⊥

  IsOpen-Holds :
      (status : OutcomeStatus) (r r' : Run W)
      → r'.rounds ≡ r.rounds
      → IsOpen status r
      → Holds status r'
  IsOpen-Holds OutcomeStatus.rounds_exhausted r r' e h = omega (arith, e)
  IsOpen-Holds OutcomeStatus.stalled r r' e h = tt
  IsOpen-Holds OutcomeStatus.done r r' e h = absurd h
  IsOpen-Holds OutcomeStatus.done_unverified r r' e h = absurd h
  IsOpen-Holds OutcomeStatus.cancelled r r' e h = absurd h

  IsOpen-kept :
      (status : OutcomeStatus) (r r' : Run W)
      → r'.rounds ≡ r.rounds
      → IsOpen status r
      → IsOpen status r'
  IsOpen-kept OutcomeStatus.rounds_exhausted r r' e h = omega (arith, e)
  IsOpen-kept OutcomeStatus.stalled r r' e h = tt
  IsOpen-kept OutcomeStatus.done r r' e h = h
  IsOpen-kept OutcomeStatus.done_unverified r r' e h = h
  IsOpen-kept OutcomeStatus.cancelled r r' e h = h

  judge_finalizer-Ended :
      (status : OutcomeStatus) (reason : String) (r : Run W)
      → IsOpen status r
      → Ended 0 r (judge_finalizer s status reason r)
  unfolding judge_finalizer ◌>>=◌
  judge_finalizer-Ended status reason r h =
      let title : String = "verifier · finalizer" in
      let out = verify_aloud s title r in
      let checked = verify_aloud-Checked title r in
      elim (Bool-cases (passed out.0)) [
        | inl good ↦
            rw (judge_finalizer, good)
              (Ended-after 0 0 0 r out.1 _ checked.goes_on
                (finish-Ended OutcomeStatus.done _ out.1 (Checked-Verified r out checked good))
                (omega arith))
        | inr bad ↦
            rw (judge_finalizer, bad)
              (Ended-after 0 0 0 r out.1 _ checked.goes_on
                (finish-Ended status _ out.1 (IsOpen-Holds status r out.1 checked.goes_on.0 h))
                (omega arith))
      ]

  run_finalizer-Ended :
      (status : OutcomeStatus) (reason : String) (r : Run W)
      → passes r.verifier ≡ false
      → IsOpen status r
      → Ended 2 r (run_finalizer s status reason r)
  unfolding run_finalizer
  run_finalizer-Ended status reason r fails h =
      let Q = Ended 2 r in
      step_then Q 0 0 r r (Quiet-refl r) (Steps-note _) λ r1 q1.
        step_then Q 0 0 r r1 q1 (Steps-say _ true) λ r2 q2.
          step Q 0 2 r r2 q2 (ask-Steps s Role.finalize _ false "" _) λ report r3 q3.
            step_then Q 2 0 r r3 q3 (Steps-modify _ (λ u. Quiet-refl u)) λ r4 q4. judged r4 q4
    where
      judged :
          (r4 : Run W)
          → Quiet 2 r r4
          → Ended 2 r (
              (if s.job.done_command == ""
                  then finish s status
                      (str_append reason "; the finalizer ran, nothing verified it")
                  else judge_finalizer s status reason)
                r4)
      judged r4 q4 = elim (Bool-cases (s.job.done_command == "")) [
        | inl e ↦ rw e (
            Ended-after 2 0 2 r r4 _ (GoesOn-Quiet 2 r r4 q4 fails)
              (finish-Ended status _ r4 (IsOpen-Holds status r r4 q4.0 h)) (omega arith))
        | inr e ↦ rw e (
            Ended-after 2 0 2 r r4 _ (GoesOn-Quiet 2 r r4 q4 fails)
              (judge_finalizer-Ended status reason r4 (IsOpen-kept status r r4 q4.0 h))
              (omega arith))
      ]

  -- The loop comes here only while the verifier's last run is no pass.
  pub finalize-Ended :
      (status : OutcomeStatus) (reason : String) (r : Run W)
      → passes r.verifier ≡ false
      → IsOpen status r
      → Ended 2 r (finalize s status reason r)
  unfolding finalize
  finalize-Ended status reason r fails h =
      rw (finalize, fails) (run_finalizer-Ended status reason r fails h)
