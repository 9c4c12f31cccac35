-- ===== src/HashedEdit/Resolve.antt =====
-- What `resolve_replacements` accepts: regions inside the file that do not overlap.
use mathlib.Core.Path.{subst}
use privibe.Prelude.{
  ℕ, suc, ◌≤◌, ◌<◌, ◌≡◌, ◌≢◌, ◌∙◌, refl, false, List, [], ◌∷◌, length, leb, ltb, arith, Bool-cases,
  inl, inr, All,
}
use privibe.Prelude.Int.{ℤ, pos, negsuc}
use privibe.Prelude.Exec.{Result, ok, err}
use privibe.HashedEdit.{
  Line, LineReplacement, Resolved, ResolveError, start_of, end_of, malformed, resolve_range,
  resolve_one, resolve_each, insert_by_start, sorted, overlap, resolve_replacements,
}

-- Ascending regions from `b` on, apart from each other, in a file of `n` lines.
abbrev pub Apart : ℕ → ℕ → List Resolved → Type 0
Apart b n [] = Unit
Apart b n (x ∷ xs) =
    (b ≤ x.start_idx) × (x.start_idx ≤ x.end_idx) × (x.end_idx < n) × Apart (suc x.end_idx) n xs

-- The region is the replacement's own, inside the file.
abbrev pub Addresses : ℕ → LineReplacement → Resolved → Type 0
Addresses n r x =
    (x.replacement ≡ r)
    × (start_of r ≡ pos x.start_idx)
    × (end_of r ≡ pos x.end_idx)
    × (x.start_idx ≤ x.end_idx)
    × (x.end_idx < n)

abbrev pub AllAddress : ℕ → List LineReplacement → List Resolved → Type 0
AllAddress n [] [] = Unit
AllAddress n [] (x ∷ xs) = ⊥
AllAddress n (r ∷ rs) [] = ⊥
AllAddress n (r ∷ rs) (x ∷ xs) = Addresses n r x × AllAddress n rs xs

InFile : ℕ → Resolved → Type 0
InFile n x = (x.start_idx ≤ x.end_idx) × (x.end_idx < n)

ok-injective : {E A : Type 0} {x y : A} → ◌≡◌ {A = Result E A} (ok x) (ok y) → x ≡ y
ok-injective h = cc

err-ne-ok : {E A : Type 0} {e : E} {x : A} → ◌≢◌ {A = Result E A} (err e) (ok x)
err-ne-ok h = cc

resolve_range_lem :
    (n s : ℕ) (e : ℤ) (r : LineReplacement) (x : Resolved)
    → resolve_range n s e r ≡ ok x
    → (x.replacement ≡ r)
      × (pos s ≡ pos x.start_idx)
      × (e ≡ pos x.end_idx)
      × (x.start_idx ≤ x.end_idx)
      × (x.end_idx < n)
unfolding resolve_range
resolve_range_lem n s (negsuc e) r x h = absurd (err-ne-ok h)
resolve_range_lem n s (pos e) r x h = elim (Bool-cases (leb n e)) [
  | inl beyond ↦ absurd (err-ne-ok (rw (beyond, resolve_range) at h))
  | inr inside ↦ elim (Bool-cases (ltb e s)) [
    | inl before ↦ absurd (err-ne-ok (rw (inside, before, resolve_range) at h))
    | inr after ↦
        subst
          (λ x.
            (x.replacement ≡ r)
            × (pos s ≡ pos x.start_idx)
            × (pos e ≡ pos x.end_idx)
            × (x.start_idx ≤ x.end_idx)
            × (x.end_idx < n))
          (ok-injective (rw (inside, after, resolve_range) at h))
          (refl, refl, refl, ground arith, ground arith)
  ]
]

resolve_one_lem :
    (n : ℕ) (r : LineReplacement) (x : Resolved) → resolve_one n r ≡ ok x → Addresses n r x
unfolding resolve_one
resolve_one_lem n r x h = on_start (start_of r) refl
  where
    on_start : (s : ℤ) → start_of r ≡ s → Addresses n r x
    on_start (negsuc s) e = absurd (err-ne-ok (rw (e, resolve_one) at h))
    on_start (pos s) e = elim (Bool-cases (leb n s)) [
      | inl beyond ↦ absurd (err-ne-ok (rw (e, beyond, resolve_one) at h))
      | inr inside ↦ elim (Bool-cases (malformed r)) [
        | inl bad ↦ absurd (err-ne-ok (rw (e, inside, bad, resolve_one) at h))
        | inr fine ↦
            let (er, es, ee, le, lt) =
              resolve_range_lem n s (end_of r) r x (rw (e, inside, fine, resolve_one) at h) in
            (er, e ∙ es, ee, le, lt)
      ]
    ]

resolve_each_lem :
    (n : ℕ) (rs : List LineReplacement) (xs : List Resolved)
    → resolve_each n rs ≡ ok xs
    → AllAddress n rs xs
unfolding resolve_each
resolve_each_lem n [] [] h = tt
resolve_each_lem n [] (x ∷ xs) h = cc
resolve_each_lem n (r ∷ rs) xs h =
    on_one (resolve_one n r) (resolve_each n rs) refl refl (resolve_each_lem n rs)
  where
    on_one :
        (o : Result ResolveError Resolved) (os : Result ResolveError (List Resolved))
        → resolve_one n r ≡ o
        → resolve_each n rs ≡ os
        → ((ys : List Resolved) → resolve_each n rs ≡ ok ys → AllAddress n rs ys)
        → AllAddress n (r ∷ rs) xs
    on_one (err e) os f g ih = absurd (err-ne-ok (rw (f, resolve_each) at h))
    on_one (ok one) (err e) f g ih = absurd (err-ne-ok (rw (f, g, resolve_each) at h))
    on_one (ok one) (ok more) f g ih =
        subst (AllAddress n (r ∷ rs)) (ok-injective (rw (f, g, resolve_each) at h))
          (resolve_one_lem n r one f, ih more g)

AllAddress-InFile :
    (n : ℕ) (rs : List LineReplacement) (xs : List Resolved)
    → AllAddress n rs xs
    → All (InFile n) xs
unfolding InFile
AllAddress-InFile n [] [] h = tt
AllAddress-InFile n [] (x ∷ xs) h = elim h [ ]
AllAddress-InFile n (r ∷ rs) [] h = elim h [ ]
AllAddress-InFile n (r ∷ rs) (x ∷ xs) ((e, f, g, le, lt), h) =
    ((le, lt), AllAddress-InFile n rs xs h)

insert_by_start-All :
    (P : Resolved → Type 0) (x : Resolved) (xs : List Resolved)
    → P x
    → All P xs
    → All P (insert_by_start x xs)
unfolding insert_by_start
insert_by_start-All P x [] p ps = (p, tt)
insert_by_start-All P x (y ∷ ys) p (q, qs) =
    let rest = insert_by_start-All P x ys p qs in
    elim (Bool-cases (leb x.start_idx y.start_idx)) [
      | inl here ↦ rw here (p, (q, qs))
      | inr later ↦ rw later (q, rest)
    ]

sorted-All : (P : Resolved → Type 0) (xs : List Resolved) → All P xs → All P (sorted xs)
unfolding sorted
sorted-All P [] ps = tt
sorted-All P (x ∷ xs) (p, ps) = insert_by_start-All P x (sorted xs) p (sorted-All P xs ps)

abbrev StartsFrom : ℕ → List Resolved → Type 0
StartsFrom b [] = Unit
StartsFrom b (x ∷ xs) = b ≤ x.start_idx

StartsFrom-zero : (xs : List Resolved) → StartsFrom 0 xs
StartsFrom-zero [] = tt
StartsFrom-zero (x ∷ xs) = omega arith

overlap-Apart :
    (b n : ℕ) (xs : List Resolved)
    → All (InFile n) xs
    → overlap xs ≡ false
    → StartsFrom b xs
    → Apart b n xs
unfolding InFile overlap
overlap-Apart b n [] all h first = tt
overlap-Apart b n (x ∷ []) ((le, lt), all) h first = (first, le, lt, tt)
overlap-Apart b n (x ∷ y ∷ xs) ((le, lt), all) h first =
    (first, le, lt, overlap-Apart (suc x.end_idx) n (y ∷ xs) all (ground arith) (ground arith))

-- Replacements that `resolve_replacements` accepts address, each in turn, a region inside the file, and
-- no two of the regions overlap.
pub resolve_replacements-Apart :
    (rs : List LineReplacement) (file_lines : List Line) (xs : List Resolved)
    → resolve_replacements rs file_lines ≡ ok xs
    → AllAddress (length file_lines) rs xs × Apart 0 (length file_lines) (sorted xs)
unfolding resolve_replacements
resolve_replacements-Apart rs file_lines xs h = on_each (resolve_each (length file_lines) rs) refl
  where
    on_each :
        (o : Result ResolveError (List Resolved))
        → resolve_each (length file_lines) rs ≡ o
        → AllAddress (length file_lines) rs xs × Apart 0 (length file_lines) (sorted xs)
    on_each (err e) f = absurd (err-ne-ok (rw (f, resolve_replacements) at h))
    on_each (ok ys) f = elim (Bool-cases (overlap (sorted ys))) [
      | inl meets ↦ absurd (err-ne-ok (rw (f, meets, resolve_replacements) at h))
      | inr apart ↦
          let all = resolve_each_lem (length file_lines) rs ys f in
          subst
            (λ xs. AllAddress (length file_lines) rs xs × Apart 0 (length file_lines) (sorted xs))
            (ok-injective (rw (f, apart, resolve_replacements) at h))
            (
              all,
              overlap-Apart 0 (length file_lines) (sorted ys)
                  (sorted-All (InFile (length file_lines)) ys
                    (AllAddress-InFile (length file_lines) rs ys all))
                  apart (StartsFrom-zero (sorted ys)),
            )
    ]
