-- ===== src/Orchestrate/Start/Begun.antt =====
-- What a run starts with.
use privibe.Prelude.{
  ℕ, ◌≡◌, refl, sym, ap, ◌∙◌, String, Bool, true, false, Option, none, some, List, [], ◌∷◌, ◌==◌,
  inl, inr, Bool-cases, ltb, leb, eqb, if◌then◌else◌, get_last?, some-injective,
}
use privibe.Prelude.Exec.{Result, ok, err}
use privibe.Str.{strip}
use privibe.Ledger.{
  Checkpoint, LedgerStateError, insert_by_number, checkpoints, latest_checkpoint, find_number,
  checkpoint, kept_through, drop_checkpoints_after,
}
use privibe.Ledger.Files.{
  Ledger, Inflight, log, write_task, write_snapshot, write_job, write_notes, write_tasks,
  clear_inflight, append_steer,
}
use privibe.Orchestrate.Verifier.{VerifierResult}
use privibe.Orchestrate.Run.{JobRecord, Setting, Run, restore_run, emit, say}
use privibe.Orchestrate.Rounds.{passes}
use privibe.Orchestrate.Rounds.Quiet.{endings, endings_say, NoPass}
use privibe.Orchestrate.Start.{
  StartError, new_run, start_fresh, go_back, note_inflight, noted, begin_at, resume_from, begin_on,
  log_lines, resume, phase_order, begin, prepare,
}

insert_by_number-NoPass :
    (c : Checkpoint VerifierResult) (cs : List (Checkpoint VerifierResult))
    → passes c.verifier ≡ false
    → NoPass cs
    → NoPass (insert_by_number c cs)
unfolding insert_by_number
insert_by_number-NoPass c [] h k = (h, tt)
insert_by_number-NoPass c (d ∷ ds) h (kd, ks) =
    let rest = insert_by_number-NoPass c ds h ks in
    elim (Bool-cases (leb c.number d.number)) [
      | inl here ↦ rw here (h, (kd, ks))
      | inr later ↦ rw later (kd, rest)
    ]

checkpoints-NoPass :
    (dir : List (Checkpoint VerifierResult)) → NoPass dir → NoPass (checkpoints dir)
unfolding checkpoints
checkpoints-NoPass [] k = tt
checkpoints-NoPass (c ∷ cs) (h, k) =
    insert_by_number-NoPass c (checkpoints cs) h (checkpoints-NoPass cs k)

get_last?-fails :
    (cs : List (Checkpoint VerifierResult)) (cp : Checkpoint VerifierResult)
    → NoPass cs
    → get_last? cs ≡ some cp
    → passes cp.verifier ≡ false
get_last?-fails [] cp k e = cc
get_last?-fails (c ∷ []) cp (h, k) e = ap (λ x. passes x.verifier) (sym (some-injective e)) ∙ h
get_last?-fails (c ∷ d ∷ cs) cp (h, k) e = get_last?-fails (d ∷ cs) cp k e

found_fails :
    (b : Bool) (c cp : Checkpoint VerifierResult)
    (rest : Result LedgerStateError (Checkpoint VerifierResult))
    → (if b then ok c else rest) ≡ ok cp
    → passes c.verifier ≡ false
    → (rest ≡ ok cp → passes cp.verifier ≡ false)
    → passes cp.verifier ≡ false
found_fails true c cp rest e h k =
    let same : c ≡ cp = cc in ap (λ x. passes x.verifier) (sym same) ∙ h
found_fails false c cp rest e h k = k e

find_number-fails :
    (n : ℕ) (cs : List (Checkpoint VerifierResult)) (cp : Checkpoint VerifierResult)
    → NoPass cs
    → find_number n cs ≡ ok cp
    → passes cp.verifier ≡ false
unfolding find_number
find_number-fails n [] cp k e = cc
find_number-fails n (c ∷ cs) cp (h, k) e =
    found_fails (eqb c.number n) c cp (find_number n cs) e h (find_number-fails n cs cp k)

kept_through-NoPass :
    (n : ℕ) (cs : List (Checkpoint VerifierResult)) → NoPass cs → NoPass (kept_through n cs)
unfolding kept_through
kept_through-NoPass n [] k = tt
kept_through-NoPass n (c ∷ cs) (h, k) =
    let rest = kept_through-NoPass n cs k in
    elim (Bool-cases (ltb n c.number)) [ inl above ↦ rw above rest | inr kept ↦ rw kept (h, rest) ]

module _ {W : Type 0} (s : Setting W) where
  -- A run that begins has yielded no outcome, and neither it nor a checkpoint holds a verifier that
  -- passed.
  pub record Begun (r : Run W) : Type 0 where
    pub fails : passes r.verifier ≡ false
    pub no_pass : NoPass r.ledger.state
    pub none_yet : endings r.events ≡ []

  log_lines-Begun : (lines : List String) (r : Run W) → Begun r → Begun (log_lines s lines r)
  unfolding log_lines
  log_lines-Begun [] r b = b
  log_lines-Begun (line ∷ lines) r b =
      log_lines-Begun lines _
        (unfold log in record { fails = b.fails; no_pass = b.no_pass; none_yet = b.none_yet })

  noted-Begun : (i : Option Inflight) (r : Run W) → Begun r → Begun (noted s i r).1
  unfolding noted clear_inflight
  noted-Begun none r b = b
  noted-Begun (some i) r b = record { fails = b.fails; no_pass = b.no_pass; none_yet = b.none_yet }

  go_back-Begun : (cp : Checkpoint VerifierResult) (r : Run W) → Begun r → Begun (go_back s cp r).1
  unfolding go_back drop_checkpoints_after
  go_back-Begun cp r b = record {
    fails = b.fails;
    no_pass = kept_through-NoPass cp.number r.ledger.state b.no_pass;
    none_yet = b.none_yet;
  }

  resume-Begun :
      (target latest : Checkpoint VerifierResult) (r : Run W)
      → passes target.verifier ≡ false
      → NoPass r.ledger.state
      → endings r.events ≡ []
      → Begun (resume s target latest r)
  unfolding resume note_inflight restore_run write_notes write_tasks
  resume-Begun target latest r fails no_pass none_yet =
      let restored = (restore_run s target r).1 in
      let b =
        noted-Begun restored.ledger.inflight restored
          (record { fails = fails; no_pass = no_pass; none_yet = none_yet }) in
      let continued = (note_inflight s restored).1 in
      elim (Bool-cases (eqb target.number latest.number)) [
        | inl same ↦ rw (resume, same) (log_lines-Begun _ continued b)
        | inr earlier ↦
            rw (resume, earlier)
              (log_lines-Begun _ _ (
                log_lines-Begun _ (go_back s target continued).1
                  (go_back-Begun target continued b)))
      ]

  abbrev pub BeginsWell : Result StartError (ℕ × Run W) → Type 0
  BeginsWell (err e) = Unit
  BeginsWell (ok (phase, r)) = Begun r

  resume_from-BeginsWell :
      (target : Result LedgerStateError (Checkpoint VerifierResult))
      (latest : Checkpoint VerifierResult) (r : Run W)
      → ((cp : Checkpoint VerifierResult) → target ≡ ok cp → passes cp.verifier ≡ false)
      → NoPass r.ledger.state
      → endings r.events ≡ []
      → BeginsWell (resume_from s target latest r)
  unfolding resume_from
  resume_from-BeginsWell (err e) latest r fails no_pass none_yet = tt
  resume_from-BeginsWell (ok cp) latest r fails no_pass none_yet = at_phase (phase_order cp.phase)
    where
      at_phase : (phase : Option ℕ) → BeginsWell (begin_at s phase cp latest r)
      at_phase none = unfold begin_at in tt
      at_phase (some phase) =
          let b = resume-Begun cp latest r (fails cp refl) no_pass none_yet in
          let resumed = resume s cp latest r in
          unfold begin_at say emit in
          record {
            fails = b.fails;
            no_pass = b.no_pass;
            none_yet = endings_say resumed.events _ false "" ∙ b.none_yet;
          }

  pub begin-BeginsWell :
      (wanted : Option ℕ) (l : Ledger VerifierResult JobRecord) (w : W)
      → NoPass l.state
      → BeginsWell (begin s wanted (new_run s l w))
  unfolding begin new_run latest_checkpoint checkpoint
  begin-BeginsWell wanted l w no_pass =
      on (get_last? (checkpoints l.state)) wanted
        (λ cp e. get_last?-fails (checkpoints l.state) cp (checkpoints-NoPass l.state no_pass) e)
    where
      on :
          (latest : Option (Checkpoint VerifierResult)) (wanted : Option ℕ)
          → ((cp : Checkpoint VerifierResult) → latest ≡ some cp → passes cp.verifier ≡ false)
          → BeginsWell (begin_on s latest wanted (new_run s l w))
      on none none fails =
          unfold begin_on start_fresh write_task write_snapshot write_job endings in
          record { fails = refl; no_pass = no_pass; none_yet = refl }
      on none (some n) fails = unfold begin_on in tt
      on (some latest) none fails =
          unfold begin_on in
          resume_from-BeginsWell (ok latest) latest (new_run s l w)
            (λ cp e. fails cp (let same : latest ≡ cp = cc in ap some same)) no_pass
            (unfold endings in refl)
      on (some latest) (some n) fails =
          unfold begin_on in
          resume_from-BeginsWell (checkpoint n l.state) latest (new_run s l w)
            (λ cp e.
              find_number-fails n (checkpoints l.state) cp (checkpoints-NoPass l.state no_pass) e)
            no_pass (unfold endings in refl)

  pub prepare-Begun : (direction : String) (r : Run W) → Begun r → Begun (prepare s direction r)
  unfolding prepare append_steer log
  prepare-Begun direction r b = elim (Bool-cases (strip direction == "")) [
    | inl e ↦
        rw (prepare, e) (record { fails = b.fails; no_pass = b.no_pass; none_yet = b.none_yet })
    | inr e ↦
        rw (prepare, e) (record { fails = b.fails; no_pass = b.no_pass; none_yet = b.none_yet })
  ]
