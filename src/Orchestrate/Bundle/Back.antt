-- ===== src/Orchestrate/Bundle/Back.antt =====
-- The listed files as a checkpoint stored them, put back: Bundle.restore of
-- privibe/core/orchestrate/snapshot.py.
use privibe.Prelude.{
  ◌≡◌, refl, sym, ap, ◌∙◌, String, Bool, true, false, Option, none, some, List, [], ◌∷◌, ◌||◌,
  Option-cases, ◌==◌, eq_iff, inl, inr, Bool-cases, if◌then◌else◌, same_text,
}
use privibe.Str.{is_in}
use privibe.Orchestrate.Bundle.{
  Bundle, Files, lookup, current_of, current_contents, restore_from, restore_files,
}
use privibe.Prelude.{some-injective}

-- What is relied on of the file system: a content that was once read of a file, and is written to it,
-- is read back, a file found missing is missing once it is removed, and no other file changes.
pub record WritesBack {W : Type 0} (f : Files W) : Type 0 where
  pub here :
      (p : String) (seen w : W)
      → f.read_current p (f.put_file p (f.read_current p seen) w) ≡ f.read_current p seen
  pub elsewhere :
      (p q : String) (c : Option String) (w : W)
      → (p == q) ≡ false
      → f.read_current q (f.put_file p c w) ≡ f.read_current q w

pub same_text-eq : (a b : Option String) → same_text a b ≡ true → a ≡ b
same_text-eq none none h = refl
same_text-eq none (some b) h = cc
same_text-eq (some a) none h = cc
same_text-eq (some a) (some b) h = ap some ((eq_iff a b).0 h)

is_in_rest :
    (q p : String) (ps : List String) {b : Bool}
    → (p == q) ≡ false
    → is_in q (p ∷ ps) ≡ b
    → is_in q ps ≡ b
unfolding is_in
is_in_rest q p ps ne h = ap (λ x. x || is_in q ps) (sym ne) ∙ h

module _ {W : Type 0} (f : Files W) where
  lookup-current_of :
      (q : String) (ps : List String) (w : W)
      → is_in q ps ≡ true
      → lookup q (current_of f ps w) ≡ some (f.read_current q w)
  unfolding is_in lookup current_of
  lookup-current_of q [] w h = cc
  lookup-current_of q (p ∷ ps) w h = elim (Bool-cases (p == q)) [
    | inl e ↦ rw e (ap (λ x. some (f.read_current x w)) ((eq_iff p q).0 e))
    | inr e ↦ rw e (lookup-current_of q ps w (is_in_rest q p ps e h))
  ]

  -- What is found was read of the path.
  current_of-was_read :
      (q : String) (ps : List String) (w : W) (c : Option String)
      → lookup q (current_of f ps w) ≡ some c
      → f.read_current q w ≡ c
  unfolding lookup current_of
  current_of-was_read q [] w c h = cc
  current_of-was_read q (p ∷ ps) w c h = elim (Bool-cases (p == q)) [
    | inl e ↦
        let found : some (f.read_current p w) ≡ some c = rw e at h in
        ap (λ x. f.read_current x w) (sym ((eq_iff p q).0 e)) ∙ some-injective found
    | inr e ↦
        let rest : lookup q (current_of f ps w) ≡ some c = rw e at h in
        current_of-was_read q ps w c rest
  ]

  -- The world after the step of one listed file.
  unfoldable put_one : List (String × Option String) → String → W → W
  put_one contents p w = elim (lookup p contents) [
    | none ↦ w
    | some wanted ↦ if same_text wanted (f.read_current p w) then w else f.put_file p wanted w
  ]

  restore_from-step :
      (contents : List (String × Option String)) (p : String) (ps : List String) (w : W)
      → (restore_from f contents (p ∷ ps) w).1
        ≡ (restore_from f contents ps (put_one contents p w)).1
  unfolding restore_from put_one
  restore_from-step contents p ps w = elim (Option-cases (lookup p contents)) [
    | inl e ↦ rw (restore_from, put_one, e) refl
    | inr (wanted, e) ↦ elim (Bool-cases (same_text wanted (f.read_current p w))) [
      | inl h ↦ rw (restore_from, put_one, e, h) refl
      | inr h ↦ rw (restore_from, put_one, e, h) refl
    ]
  ]

  module _ (laws : WritesBack f) (contents : List (String × Option String)) (saved : W)
      (was_read : (p : String) (c : Option String)
        → lookup p contents ≡ some c
        → f.read_current p saved ≡ c) where
    put_one-other :
        (p q : String) (w : W)
        → (p == q) ≡ false
        → f.read_current q (put_one contents p w) ≡ f.read_current q w
    unfolding put_one
    put_one-other p q w ne = elim (Option-cases (lookup p contents)) [
      | inl e ↦ rw (put_one, e) refl
      | inr (wanted, e) ↦ elim (Bool-cases (same_text wanted (f.read_current p w))) [
        | inl h ↦ rw (put_one, e, h) refl
        | inr h ↦ rw (put_one, e, h) (laws.elsewhere p q wanted w ne)
      ]
    ]

    put_one-wanted :
        (p : String) (wanted : Option String) (w : W)
        → lookup p contents ≡ some wanted
        → f.read_current p (put_one contents p w) ≡ wanted
    unfolding put_one
    put_one-wanted p wanted w e = elim (Bool-cases (same_text wanted (f.read_current p w))) [
      | inl h ↦ rw (put_one, e, h) (sym (same_text-eq wanted (f.read_current p w) h))
      | inr h ↦
          let same = was_read p wanted e in
          rw (put_one, e, h)
            (ap (λ c. f.read_current p (f.put_file p c w)) (sym same) ∙ laws.here p saved w ∙ same)
    ]

    -- A file that holds what is wanted keeps it.
    put_one-keeps :
        (p q : String) (wanted : Option String) (w : W)
        → lookup q contents ≡ some wanted
        → f.read_current q w ≡ wanted
        → f.read_current q (put_one contents p w) ≡ wanted
    put_one-keeps p q wanted w e h = elim (Bool-cases (p == q)) [
      | inl same ↦
          let eq = (eq_iff p q).0 same in
          ap (λ x. f.read_current q (put_one contents x w)) eq ∙ put_one-wanted q wanted w e
      | inr ne ↦ put_one-other p q w ne ∙ h
    ]

    restore_from-keeps :
        (ps : List String) (q : String) (wanted : Option String) (w : W)
        → lookup q contents ≡ some wanted
        → f.read_current q w ≡ wanted
        → f.read_current q (restore_from f contents ps w).1 ≡ wanted
    restore_from-keeps [] q wanted w e h = unfold restore_from in h
    restore_from-keeps (p ∷ ps) q wanted w e h =
        ap (f.read_current q) (restore_from-step contents p ps w)
        ∙ restore_from-keeps ps q wanted (put_one contents p w) e (put_one-keeps p q wanted w e h)

    restore_from-wanted :
        (ps : List String) (q : String) (wanted : Option String) (w : W)
        → lookup q contents ≡ some wanted
        → is_in q ps ≡ true
        → f.read_current q (restore_from f contents ps w).1 ≡ wanted
    unfolding is_in
    restore_from-wanted [] q wanted w e h = cc
    restore_from-wanted (p ∷ ps) q wanted w e h =
        ap (f.read_current q) (restore_from-step contents p ps w) ∙ elim (Bool-cases (p == q)) [
          | inl same ↦
              let right =
                ap (λ x. f.read_current q (put_one contents x w)) ((eq_iff p q).0 same)
                ∙ put_one-wanted q wanted w e in
              restore_from-keeps ps q wanted (put_one contents p w) e right
          | inr ne ↦
              restore_from-wanted ps q wanted (put_one contents p w) e (is_in_rest q p ps ne h)
        ]

    restore_from-other :
        (ps : List String) (q : String) (w : W)
        → is_in q ps ≡ false
        → f.read_current q (restore_from f contents ps w).1 ≡ f.read_current q w
    unfolding is_in
    restore_from-other [] q w h = unfold restore_from in refl
    restore_from-other (p ∷ ps) q w h = elim (Bool-cases (p == q)) [
      | inl same ↦ let no : true ≡ false = ap (λ b. b || is_in q ps) (sym same) ∙ h in cc
      | inr ne ↦
          ap (f.read_current q) (restore_from-step contents p ps w)
          ∙ restore_from-other ps q (put_one contents p w) (is_in_rest q p ps ne h)
          ∙ put_one-other p q w ne
    ]

  -- Every listed file gets back what was read of it, and no other file is touched.
  pub restore_files-current :
      WritesBack f
      → (b : Bundle) (saved now : W) (q : String)
      → f.read_current q (restore_files f b (current_contents f b saved) now).1
        ≡ f.read_current q (if is_in q b.paths then saved else now)
  unfolding restore_files current_contents
  restore_files-current laws b saved now q = elim (Bool-cases (is_in q b.paths)) [
    | inl listed ↦ rw listed (
        restore_from-wanted laws (current_of f b.paths saved) saved
          (λ p c. current_of-was_read p b.paths saved c) b.paths q (f.read_current q saved) now
          (lookup-current_of q b.paths saved listed) listed)
    | inr other ↦ rw other (
        restore_from-other laws (current_of f b.paths saved) saved
          (λ p c. current_of-was_read p b.paths saved c) b.paths q now other)
  ]
