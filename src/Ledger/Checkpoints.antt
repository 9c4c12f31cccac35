-- ===== src/Ledger/Checkpoints.antt =====
-- The checkpoint written last is the one a resumed run finds.
use privibe.Prelude.{
  ℕ, ◌+◌, ◌≤◌, ◌<◌, ◌≡◌, ap, refl, ◌⊎◌, inl, inr, false, none, some, List, [], ◌∷◌, get_last?, leb,
  eqb, arith, Bool-cases, All, none-ne-some, some-injective, leb→le,
}
use privibe.Ledger.{
  Checkpoint, write_checkpoint, insert_by_number, checkpoints, latest_checkpoint,
  next_checkpoint_number,
}

module _ {V : Type 0} where
  abbrev UpTo : ℕ → List (Checkpoint V) → Type 0
  UpTo n cs = All (λ c. c.number ≤ n) cs

  UpTo-le : (m n : ℕ) (cs : List (Checkpoint V)) → m ≤ n → UpTo m cs → UpTo n cs
  UpTo-le m n [] le h = tt
  UpTo-le m n (c ∷ cs) le (h, hs) = (omega arith, UpTo-le m n cs le hs)

  insert_by_number-UpTo :
      (n : ℕ) (c : Checkpoint V) (cs : List (Checkpoint V))
      → c.number ≤ n
      → UpTo n cs
      → UpTo n (insert_by_number c cs)
  unfolding insert_by_number
  insert_by_number-UpTo n c [] le h = (le, tt)
  insert_by_number-UpTo n c (d ∷ ds) le (h, hs) =
      let rest = insert_by_number-UpTo n c ds le hs in
      elim (Bool-cases (leb c.number d.number)) [
        | inl here ↦ rw here (le, (h, hs))
        | inr later ↦ rw later (h, rest)
      ]

  get_last?-cons :
      (d : Checkpoint V) (cs : List (Checkpoint V)) (l : Checkpoint V)
      → get_last? cs ≡ some l
      → get_last? (d ∷ cs) ≡ some l
  get_last?-cons d [] l e = absurd (none-ne-some e)
  get_last?-cons d (c ∷ cs) l e = e

  -- The last of a sorted list after an insertion.
  last_of_insert :
      (c l : Checkpoint V) (cs : List (Checkpoint V))
      → UpTo l.number cs
      → get_last? cs ≡ some l
      → ((get_last? (insert_by_number c cs) ≡ some l) × (c.number ≤ l.number))
        ⊎ ((get_last? (insert_by_number c cs) ≡ some c) × (l.number ≤ c.number))
  unfolding insert_by_number
  last_of_insert c l [] up e = absurd (none-ne-some e)
  last_of_insert c l (d ∷ []) (le, up) e = elim (Bool-cases (leb c.number d.number)) [
    | inl here ↦ inl (rw here e, omega (arith, leb→le c.number d.number here))
    | inr later ↦ inr (rw later refl, ground (arith, ap (λ x. x.number) (some-injective e)))
  ]
  last_of_insert c l (d ∷ x ∷ xs) (le, up) e =
      let rest = last_of_insert c l (x ∷ xs) up e in
      elim (Bool-cases (leb c.number d.number)) [
        | inl here ↦ inl (rw here e, omega (arith, leb→le c.number d.number here))
        | inr later ↦ rw later (elim rest [
          | inl (f, le') ↦ inl (get_last?-cons d (insert_by_number c (x ∷ xs)) l f, le')
          | inr (f, le') ↦ inr (get_last?-cons d (insert_by_number c (x ∷ xs)) c f, le')
        ])
      ]

  -- Either the directory is empty, or no checkpoint in it has a higher number than the latest one.
  latest_checkpoint_lem :
      (dir : List (Checkpoint V))
      → ((dir ≡ []) × (latest_checkpoint dir ≡ none))
        ⊎ ((l : Checkpoint V) × (latest_checkpoint dir ≡ some l)
            × UpTo l.number dir
            × UpTo l.number (checkpoints dir))
  unfolding latest_checkpoint checkpoints
  latest_checkpoint_lem [] = inl (refl, refl)
  latest_checkpoint_lem (c ∷ []) =
      unfold insert_by_number in inr (c, refl, (omega arith, tt), (omega arith, tt))
  latest_checkpoint_lem (c ∷ x ∷ xs) = elim (latest_checkpoint_lem (x ∷ xs)) [
    | inl (e, n) ↦ cc
    | inr (l, e, up, ups) ↦ elim (last_of_insert c l (checkpoints (x ∷ xs)) ups e) [
      | inl (f, le) ↦
          inr (l, f, (le, up), insert_by_number-UpTo l.number c (checkpoints (x ∷ xs)) le ups)
      | inr (f, le) ↦ inr (
        c,
        f,
        (omega arith, UpTo-le l.number c.number (x ∷ xs) le up),
        insert_by_number-UpTo c.number c (checkpoints (x ∷ xs)) (omega arith)
            (UpTo-le l.number c.number (checkpoints (x ∷ xs)) le ups),
      )
    ]
  ]

  write_checkpoint_newest :
      (cp : Checkpoint V) (n : ℕ) (dir : List (Checkpoint V))
      → UpTo n dir
      → n < cp.number
      → (latest_checkpoint (write_checkpoint cp dir) ≡ some cp)
        × UpTo cp.number (checkpoints (write_checkpoint cp dir))
  unfolding latest_checkpoint checkpoints write_checkpoint
  write_checkpoint_newest cp n [] up lt = unfold insert_by_number in (refl, (omega arith, tt))
  write_checkpoint_newest cp n (c ∷ cs) (le, up) lt =
      let (e, ups) = write_checkpoint_newest cp n cs up lt in
      let other : eqb c.number cp.number ≡ false = ground arith in
      rw other (elim (last_of_insert c cp (checkpoints (write_checkpoint cp cs)) ups e) [
        | inl (f, le') ↦
            (f, insert_by_number-UpTo cp.number c (checkpoints (write_checkpoint cp cs)) le' ups)
        | inr (f, le') ↦ absurd (omega arith)
      ])

  -- A checkpoint that is written under the next free number is the latest one right after the write.
  pub latest_checkpoint-write_checkpoint :
      (cp : Checkpoint V) (dir : List (Checkpoint V))
      → cp.number ≡ next_checkpoint_number dir
      → latest_checkpoint (write_checkpoint cp dir) ≡ some cp
  unfolding next_checkpoint_number
  latest_checkpoint-write_checkpoint cp dir e = elim (latest_checkpoint_lem dir) [
    | inl (empty, n) ↦
        let first : next_checkpoint_number dir ≡ 1 = rw (n, next_checkpoint_number) refl in
        (write_checkpoint_newest cp 0 dir (rw empty tt) (omega (arith, e, first))).0
    | inr (l, latest, up, ups) ↦
        let next : next_checkpoint_number dir ≡ l.number + 1 =
          rw (latest, next_checkpoint_number) refl in
        (write_checkpoint_newest cp l.number dir up (omega (arith, e, next))).0
  ]
