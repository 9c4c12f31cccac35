-- ===== src/Orchestrate/Rounds/Quiet.antt =====
-- What the steps of a run leave as it was.
use privibe.Prelude.{
  ℕ, suc, ◌+◌, ◌≤◌, ◌≡◌, refl, sym, ap, ◌∙◌, String, Bool, false, Option, none, some, List, [], ◌∷◌,
  ◌++◌, append-nil, inl, inr, arith, Bool-cases, eqb, if◌then◌else◌,
}
use privibe.Prelude.Exec.{Result, ok, err}
use privibe.Ledger.{Checkpoint}
use privibe.Ledger.Files.{Ledger}
use privibe.Orchestrate.Verifier.{VerifierResult}
use privibe.Orchestrate.Run.{
  M, pure, ◌>>=◌, ◌>>◌, handle, if_some, modify, on_ledger, note, say, is_last, JobRecord, Outcome,
  Event, Run,
}
use privibe.Prelude.{All}
use privibe.Ledger.{write_checkpoint}
use privibe.Orchestrate.Rounds.{passes}
use privibe.Ledger.Files.{log}
use mathlib.Core.Path.{subst}

-- The outcomes among what was yielded.
unfoldable pub endings : List Event → List Outcome
endings [] = []
endings (Event.progress m section hint ∷ es) = endings es
endings (Event.ended x ∷ es) = x ∷ endings es

pub endings-append : (es fs : List Event) → endings (es ++ fs) ≡ endings es ++ endings fs
unfolding endings
endings-append [] fs = refl
endings-append (Event.progress m section hint ∷ es) fs = endings-append es fs
endings-append (Event.ended x ∷ es) fs = ap (x ∷◌) (endings-append es fs)

pub endings_say :
    (es : List Event) (m : String) (section : Bool) (hint : String)
    → endings (es ++ Event.progress m section hint ∷ []) ≡ endings es
unfolding endings
endings_say es m section hint =
    endings-append es (Event.progress m section hint ∷ []) ∙ append-nil (endings es)

-- No checkpoint records a verifier that passed.
abbrev pub NoPass : List (Checkpoint VerifierResult) → Type 0
NoPass cps = All (λ cp. passes cp.verifier ≡ false) cps

pub NoPass-write_checkpoint :
    (cp : Checkpoint VerifierResult) (cps : List (Checkpoint VerifierResult))
    → passes cp.verifier ≡ false
    → NoPass cps
    → NoPass (write_checkpoint cp cps)
unfolding write_checkpoint
NoPass-write_checkpoint cp [] h k = (h, tt)
NoPass-write_checkpoint cp (c ∷ cs) h (kc, ks) =
    let rest = NoPass-write_checkpoint cp cs h ks in
    elim (Bool-cases (eqb c.number cp.number)) [
      | inl same ↦ rw same (h, ks)
      | inr other ↦ rw other (kc, rest)
    ]

-- At most n more calls, the same round, no outcome, and the verifier's last run as it was.
abbrev pub Quiet : {W : Type 0} → ℕ → Run W → Run W → Type 0
Quiet n r r' =
    (r'.rounds ≡ r.rounds)
    × (r'.calls ≤ r.calls + n)
    × (endings r'.events ≡ endings r.events)
    × (r'.verifier ≡ r.verifier)
    × (passes r.verifier ≡ false → NoPass r.ledger.state → NoPass r'.ledger.state)

pub Quiet-trans :
    {W : Type 0} (m n k : ℕ) (r r' r'' : Run W)
    → Quiet m r r'
    → Quiet n r' r''
    → m + n ≤ k
    → Quiet k r r''
Quiet-trans m n k r r' r'' (a, b, c, d, e) (a', b', c', d', e') le =
    (a' ∙ a, omega arith, c' ∙ c, d' ∙ d, λ h k. e' (ap passes d ∙ h) (e h k))

pub Quiet-refl : {W : Type 0} (r : Run W) → Quiet 0 r r
Quiet-refl r = (refl, omega arith, refl, refl, λ h k. k)

-- A computation that is quiet from every run.
pub record Steps {W A : Type 0} (n : ℕ) (m : M W A) : Type 0 where
  pub at : (r : Run W) → Quiet n r (m r).1

module _ {W : Type 0} where
  pub Steps-pure : {A : Type 0} (n : ℕ) (a : A) → Steps {W = W} n (pure a)
  unfolding pure
  Steps-pure n a = record { at = λ r. (refl, omega arith, refl, refl, λ h k. k) }

  pub Steps-note : (event : String) → Steps {W = W} 0 (note event)
  unfolding note log
  Steps-note event = record { at = λ r. Quiet-refl r }

  pub Steps-say : (m : String) (section : Bool) → Steps {W = W} 0 (say m section)
  unfolding say
  Steps-say m section = record {
    at = λ r. (refl, omega arith, endings_say r.events m section "", refl, λ h k. k);
  }

  pub Steps-on_ledger :
      (f : Ledger VerifierResult JobRecord → Ledger VerifierResult JobRecord)
      → ((l : Ledger VerifierResult JobRecord) → (f l).state ≡ l.state)
      → Steps {W = W} 0 (on_ledger f)
  unfolding on_ledger
  Steps-on_ledger f same = record {
    at = λ r. (refl, omega arith, refl, refl, λ h k. subst NoPass (sym (same r.ledger)) k);
  }

  pub Steps-bind :
      {A B : Type 0} (a b c : ℕ) {m : M W A} {f : A → M W B}
      → a + b ≤ c
      → Steps a m
      → ((x : A) → Steps b (f x))
      → Steps c (m >>= f)
  unfolding ◌>>=◌
  Steps-bind a b c {m} {f} le h k = record {
    at =
        λ r. Quiet-trans a b c r (m r).1 (f (m r).0 (m r).1).1 (h.at r) ((k (m r).0).at (m r).1) le;
  }

  pub Steps-then :
      {B : Type 0} (a b c : ℕ) {m : M W (Unit {0})} {k : M W B}
      → a + b ≤ c
      → Steps a m
      → Steps b k
      → Steps c (m >> k)
  unfolding ◌>>◌
  Steps-then a b c {m} {k} le h h' = Steps-bind a b c le h (λ _. h')

  pub Steps-handle :
      {A B : Type 0} (n : ℕ) (x : Result String A) {f : A → M W B} {g : String → M W B}
      → ((a : A) → Steps n (f a))
      → ((e : String) → Steps n (g e))
      → Steps n (handle x f g)
  unfolding handle
  Steps-handle n (ok a) h k = h a
  Steps-handle n (err e) h k = k e

  pub Steps-if_some :
      {A B : Type 0} (n : ℕ) (x : Option A) {f : A → M W B} {m : M W B}
      → ((a : A) → Steps n (f a))
      → Steps n m
      → Steps n (if_some x f m)
  unfolding if_some
  Steps-if_some n none h k = k
  Steps-if_some n (some a) h k = h a

  pub Steps-modify :
      (g : Run W → Run W) → ((r : Run W) → Quiet 0 r (g r)) → Steps {W = W} 0 (modify g)
  unfolding modify
  Steps-modify g h = record { at = h }

  -- A statement on what comes after some quiet steps, with what is known so far.
  pub step :
      {A B : Type 0} (Q : B × Run W → Type 0) (a b : ℕ) (r₀ r : Run W) {m : M W A} {f : A → M W B}
      → Quiet a r₀ r
      → Steps b m
      → ((x : A) (r' : Run W) → Quiet (a + b) r₀ r' → Q (f x r'))
      → Q ((m >>= f) r)
  unfolding ◌>>=◌
  step Q a b r₀ r {m} quiet h next =
      next (m r).0 (m r).1 (Quiet-trans a b (a + b) r₀ r (m r).1 quiet (h.at r) (omega arith))

  pub step_then :
      {B : Type 0} (Q : B × Run W → Type 0) (a b : ℕ) (r₀ r : Run W) {m : M W (Unit {0})}
      {k : M W B}
      → Quiet a r₀ r
      → Steps b m
      → ((r' : Run W) → Quiet (a + b) r₀ r' → Q (k r'))
      → Q ((m >> k) r)
  unfolding ◌>>◌
  step_then Q a b r₀ r quiet h next = step Q a b r₀ r quiet h (λ x r' q. next r' q)

  pub Steps-no_retry :
      Steps {W = W} 0
        (modify (λ run. if is_last 0 then run else record run { calls = run.calls + 1 }))
  unfolding modify
  Steps-no_retry = record { at = λ r. Quiet-refl r }

  -- A failed attempt that is tried again counts as one more call.
  pub Steps-count_retry :
      (left : ℕ)
      → Steps {W = W} 1
          (modify (λ run. if is_last (suc left) then run else record run { calls = run.calls + 1 }))
  unfolding modify
  Steps-count_retry left = record { at = λ r. (refl, omega arith, refl, refl, λ h k. k) }

  pub Steps-count_call : Steps {W = W} 1 (modify (λ run. record run { calls = run.calls + 1 }))
  unfolding modify
  Steps-count_call = record { at = λ r. (refl, omega arith, refl, refl, λ h k. k) }
