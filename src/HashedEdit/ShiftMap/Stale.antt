-- ===== src/HashedEdit/ShiftMap/Stale.antt =====
-- What `translate_stale_addresses` does to the addresses.
use mathlib.Core.Path.{subst}
use privibe.Prelude.{
  some-injective, none-ne-some, ℕ, ◌≡◌, sym, refl, ◌⊎◌, inl, inr, true, false, ◌||◌, Option, none,
  some, List, [], ◌∷◌, eqb, eqb_iff, Bool-cases,
}
use privibe.Prelude.Int.{ℤ, pos, ltb_ℤ}
use privibe.HashedEdit.{Line, LineReplacement, address_ok, start_of, end_of, malformed}
use privibe.HashedEdit.ShiftMap.{
  ShiftMap, ShiftNote, translate_interval, moved_to, shifted_candidate, translate_each,
  translate_stale_addresses,
}
use privibe.Prelude.{zero, suc, ap, ◌∙◌}
use privibe.Prelude.Int.{negsuc, ◌+ℤ◌, pred_ℤ}
use privibe.HashedEdit.ShiftMap.{ShiftEdit, walk_generations, shift_through}
use privibe.HashedEdit.ShiftMap.Follow.{translate_interval_walks}
use privibe.Prelude.{Bool}
use privibe.Prelude.{◌+◌, arith}
use privibe.Prelude.{leb, ◌-◌}

abbrev names_end : LineReplacement → Bool
names_end r = elim r.end_line [ none ↦ false | some _ ↦ true ]

-- An address that stays because it verifies as it is, or is left for the later checks to report, or an
-- address that the map moves and that verifies where it is moved to.
abbrev pub Followed : ShiftMap → List Line → LineReplacement → LineReplacement → Type 0
Followed smap file_lines r r' =
    ((r' ≡ r) × ((malformed r || address_ok r (start_of r) (end_of r) file_lines) ≡ true))
    ⊎ ((cs : ℤ) × (ce : ℤ) × (translate_interval smap (start_of r) (end_of r) ≡ some (cs, ce))
        × (start_of r' ≡ cs)
        × (end_of r' ≡ ce)
        × (names_end r' ≡ names_end r)
        × (r' ≡ record r { line = r'.line; end_line = r'.end_line })
        × (address_ok r' (start_of r') (end_of r') file_lines ≡ true))

abbrev pub AllFollowed : ShiftMap → List Line → List LineReplacement → List LineReplacement → Type 0
AllFollowed smap file_lines [] [] = Unit
AllFollowed smap file_lines [] (r' ∷ out) = ⊥
AllFollowed smap file_lines (r ∷ rs) [] = ⊥
AllFollowed smap file_lines (r ∷ rs) (r' ∷ out) =
    Followed smap file_lines r r' × AllFollowed smap file_lines rs out

pred-add_one : (i : ℤ) → pred_ℤ (i +ℤ pos 1) ≡ i
pred-add_one (pos n) =
    let one_more : n + 1 ≡ suc n = omega arith in ap (λ k. pred_ℤ (pos k)) one_more
pred-add_one (negsuc zero) = refl
pred-add_one (negsuc (suc n)) =
    let less : leb (suc (suc n)) 1 ≡ false = ground arith in
    let rest : suc (suc n) - 1 - 1 ≡ n = omega arith in rw (less, rest) refl

-- An interval of one line stays one.
walk_generations-one_line :
    (gs : List (List ShiftEdit)) (i a b : ℤ) → walk_generations gs i i ≡ some (a, b) → a ≡ b
unfolding walk_generations
walk_generations-one_line [] i a b h =
    let same : (i, i) ≡ (a, b) = some-injective h in sym (ap (λ x. x.0) same) ∙ ap (λ x. x.1) same
walk_generations-one_line (g ∷ gs) i a b h =
    on_shift (shift_through g i i (pos 0)) refl (λ j. walk_generations-one_line gs j a b)
  where
    on_shift :
        (o : Option ℤ)
        → shift_through g i i (pos 0) ≡ o
        → ((j : ℤ) → walk_generations gs j j ≡ some (a, b) → a ≡ b)
        → a ≡ b
    on_shift none e ih = absurd (none-ne-some (rw (e, walk_generations) at h))
    on_shift (some shift) e ih = ih (i +ℤ shift) (rw (e, walk_generations) at h)

moved_to-end_of :
    (smap : ShiftMap) (r : LineReplacement) (cs ce : ℤ) (e : Option ℤ)
    → r.end_line ≡ e
    → translate_interval smap (start_of r) (end_of r) ≡ some (cs, ce)
    → (end_of (moved_to cs ce r) ≡ ce) × (names_end (moved_to cs ce r) ≡ names_end r)
unfolding moved_to end_of start_of
moved_to-end_of smap r cs ce (some i) e h = rw (e, pred-add_one) (refl, refl)
moved_to-end_of smap r cs ce none e h =
    let walked = translate_interval_walks smap (start_of r) (end_of r) (cs, ce) h in
    let one : walk_generations smap.generations (start_of r) (start_of r) ≡ some (cs, ce) =
      rw (e, end_of) at walked in
    rw (e, pred-add_one) (walk_generations-one_line smap.generations (start_of r) cs ce one, refl)

-- Where the candidate verifies at the moved lines, these are the lines of its address.
moved_to-Followed :
    (smap : ShiftMap) (file_lines : List Line) (r : LineReplacement) (cs ce : ℤ)
    → translate_interval smap (start_of r) (end_of r) ≡ some (cs, ce)
    → address_ok (moved_to cs ce r) cs ce file_lines ≡ true
    → Followed smap file_lines r (moved_to cs ce r)
moved_to-Followed smap file_lines r cs ce e good =
    let (ends, named) = moved_to-end_of smap r cs ce r.end_line refl e in
    let starts : start_of (moved_to cs ce r) ≡ cs = unfold start_of moved_to in pred-add_one cs in
    inr (cs, ce, e, starts, ends, named, unfold moved_to in refl, rw (starts, ends) good)

module _ (smap : ShiftMap) (file_lines : List Line) where
  shifted_candidate-Followed :
      (r c : LineReplacement)
      → shifted_candidate smap r file_lines ≡ some c
      → Followed smap file_lines r c
  unfolding shifted_candidate
  shifted_candidate-Followed r c h =
      elim (Bool-cases (ltb_ℤ (start_of r) (pos 0) || ltb_ℤ (end_of r) (start_of r))) [
        | inl bad ↦ absurd (none-ne-some (rw (bad, shifted_candidate) at h))
        | inr fine ↦ on_interval fine (translate_interval smap (start_of r) (end_of r)) refl
      ]
    where
      on_interval :
          (ltb_ℤ (start_of r) (pos 0) || ltb_ℤ (end_of r) (start_of r)) ≡ false
          → (o : Option (ℤ × ℤ)) → translate_interval smap (start_of r) (end_of r) ≡ o
          → Followed smap file_lines r c
      on_interval fine none e = absurd (none-ne-some (rw (fine, e, shifted_candidate) at h))
      on_interval fine (some (cs, ce)) e =
          elim (Bool-cases (address_ok (moved_to cs ce r) cs ce file_lines)) [
            | inl good ↦
                let same : moved_to cs ce r ≡ c =
                  some-injective (rw (fine, e, good, shifted_candidate) at h) in
                subst (Followed smap file_lines r) same
                  (moved_to-Followed smap file_lines r cs ce e good)
            | inr wrong ↦ absurd (none-ne-some (rw (fine, e, wrong, shifted_candidate) at h))
          ]

  translate_each-AllFollowed :
      (rs out : List LineReplacement) (notes : List ShiftNote)
      → translate_each smap rs file_lines ≡ some (out, notes)
      → AllFollowed smap file_lines rs out
  unfolding translate_each
  translate_each-AllFollowed [] out notes h =
      subst (λ x. AllFollowed smap file_lines [] x.0) (some-injective h) tt
  translate_each-AllFollowed (r ∷ rs) out notes h =
      on_rest (translate_each smap rs file_lines) refl (translate_each-AllFollowed rs)
    where
      on_candidate :
          (more : List LineReplacement) (told : List ShiftNote)
          → translate_each smap rs file_lines ≡ some (more, told)
          → ((out : List LineReplacement) (notes : List ShiftNote)
              → translate_each smap rs file_lines ≡ some (out, notes)
              → AllFollowed smap file_lines rs out)
          → (malformed r || address_ok r (start_of r) (end_of r) file_lines) ≡ false
          → (o : Option LineReplacement) → shifted_candidate smap r file_lines ≡ o
          → AllFollowed smap file_lines (r ∷ rs) out
      on_candidate more told e ih stale none f =
          absurd (none-ne-some (rw (e, stale, f, translate_each) at h))
      on_candidate more told e ih stale (some c) f =
          subst (λ x. AllFollowed smap file_lines (r ∷ rs) x.0)
            (some-injective (rw (e, stale, f, translate_each) at h))
            (shifted_candidate-Followed r c f, ih more told e)

      on_rest :
          (o : Option (List LineReplacement × List ShiftNote))
          → translate_each smap rs file_lines ≡ o
          → ((out : List LineReplacement) (notes : List ShiftNote)
              → translate_each smap rs file_lines ≡ some (out, notes)
              → AllFollowed smap file_lines rs out)
          → AllFollowed smap file_lines (r ∷ rs) out
      on_rest none e ih = absurd (none-ne-some (rw (e, translate_each) at h))
      on_rest (some (more, told)) e ih =
          elim (Bool-cases (malformed r || address_ok r (start_of r) (end_of r) file_lines)) [
            | inl good ↦
                subst (λ x. AllFollowed smap file_lines (r ∷ rs) x.0)
                  (some-injective (rw (e, good, translate_each) at h))
                  (inl (refl, good), ih more told e)
            | inr stale ↦
                on_candidate more told e ih stale (shifted_candidate smap r file_lines) refl
          ]

-- Either every address stays as it was sent and the map is dropped, or the file is the one that the
-- map was recorded for, the map stays, and each address verifies as it is, or is left to the later
-- checks as malformed, or has the lines that the map moves it to, its hashes and new content unchanged,
-- and verifies at them.
pub translate_stale_addresses_outcome :
    (fingerprint_of : List Line → ℕ) (smap : Option ShiftMap) (rs : List LineReplacement)
    (file_lines : List Line)
    → (translate_stale_addresses fingerprint_of smap rs file_lines ≡ ((rs, []), none))
      ⊎ ((m : ShiftMap) × (smap ≡ some m)
          × (m.fingerprint ≡ fingerprint_of file_lines)
          × ((translate_stale_addresses fingerprint_of smap rs file_lines).1 ≡ some m)
          × AllFollowed m file_lines rs
              (translate_stale_addresses fingerprint_of smap rs file_lines).0.0)
unfolding translate_stale_addresses
translate_stale_addresses_outcome fingerprint_of none rs file_lines = inl refl
translate_stale_addresses_outcome fingerprint_of (some m) rs file_lines =
    elim (Bool-cases (eqb m.fingerprint (fingerprint_of file_lines))) [
      | inl same ↦ on_each same (translate_each m rs file_lines) refl
      | inr other ↦ inl (rw (other, translate_stale_addresses) refl)
    ]
  where
    on_each :
        eqb m.fingerprint (fingerprint_of file_lines) ≡ true
        → (o : Option (List LineReplacement × List ShiftNote)) → translate_each m rs file_lines ≡ o
        → (translate_stale_addresses fingerprint_of (some m) rs file_lines ≡ ((rs, []), none))
          ⊎ ((m' : ShiftMap) × (some m ≡ some m')
              × (m'.fingerprint ≡ fingerprint_of file_lines)
              × ((translate_stale_addresses fingerprint_of (some m) rs file_lines).1 ≡ some m')
              × AllFollowed m' file_lines rs
                  (translate_stale_addresses fingerprint_of (some m) rs file_lines).0.0)
    on_each same none e = inl (rw (same, e, translate_stale_addresses) refl)
    on_each same (some (out, notes)) e = inr (
      m,
      refl,
      (eqb_iff m.fingerprint (fingerprint_of file_lines)).0 same,
      rw (same, e, translate_stale_addresses) refl,
      rw (same, e, translate_stale_addresses)
          (translate_each-AllFollowed m file_lines rs out notes e),
    )
