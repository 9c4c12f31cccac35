-- ===== src/Str/Members.antt =====
-- What is in a sorted list, in a set, and in two lists together.
use Prim.Native.String.{compare}
use Prim.Native.Nat.{Ordering}
use privibe.Prelude.{
  ◌≡◌, refl, sym, ap, ◌∙◌, String, Bool, true, false, List, [], ◌∷◌, ◌++◌, inl, inr, ◌||◌, ◌==◌,
  eq_iff, Bool-cases,
}
use privibe.Str.{is_in, insert_sorted, sorted, distinct}

or_swap : (a b c : Bool) → (a || (b || c)) ≡ (b || (a || c))
or_swap true true c = refl
or_swap true false c = refl
or_swap false b c = refl

is_in-insert_sorted :
    (q s : String) (ts : List String) → is_in q (insert_sorted s ts) ≡ is_in q (s ∷ ts)
unfolding is_in insert_sorted
is_in-insert_sorted q s [] = refl
is_in-insert_sorted q s (t ∷ ts) = on (compare s t) (is_in-insert_sorted q s ts)
  where
    on :
        (o : Ordering)
        → is_in q (insert_sorted s ts) ≡ is_in q (s ∷ ts)
        → is_in q (elim o [ Ordering.gt ↦ t ∷ insert_sorted s ts | _ ↦ s ∷ t ∷ ts ])
          ≡ is_in q (s ∷ t ∷ ts)
    on Ordering.lt h = refl
    on Ordering.eq h = refl
    on Ordering.gt h = ap (t == q ||◌) h ∙ or_swap (t == q) (s == q) (is_in q ts)

pub is_in-sorted : (q : String) (ts : List String) → is_in q (sorted ts) ≡ is_in q ts
unfolding sorted is_in
is_in-sorted q [] = refl
is_in-sorted q (t ∷ ts) = is_in-insert_sorted q t (sorted ts) ∙ ap (t == q ||◌) (is_in-sorted q ts)

pub is_in-distinct :
    (q : String) (ts : List String) → is_in q ts ≡ true → is_in q (distinct ts) ≡ true
unfolding distinct is_in
is_in-distinct q [] h = h
is_in-distinct q (t ∷ ts) h = elim (Bool-cases (is_in t (distinct ts))) [
  | inl known ↦
      rw (distinct, known)
        (elim (Bool-cases (t == q)) [
          | inl same ↦ ap (λ x. is_in x (distinct ts)) (sym ((eq_iff t q).0 same)) ∙ known
          | inr other ↦ is_in-distinct q ts (ap (λ b. b || is_in q ts) (sym other) ∙ h)
        ])
  | inr fresh ↦
      rw (distinct, fresh)
        (elim (Bool-cases (t == q)) [
          | inl same ↦ rw (is_in, same) refl
          | inr other ↦
              rw (is_in, other) (is_in-distinct q ts (ap (λ b. b || is_in q ts) (sym other) ∙ h))
        ])
]

pub is_in-append_right :
    (q : String) (ts us : List String) → is_in q us ≡ true → is_in q (ts ++ us) ≡ true
unfolding is_in
is_in-append_right q [] us h = h
is_in-append_right q (t ∷ ts) us h = elim (Bool-cases (t == q)) [
  | inl same ↦ rw same refl
  | inr other ↦ rw other (is_in-append_right q ts us h)
]

pub is_in-append_left :
    (q : String) (ts us : List String) → is_in q ts ≡ true → is_in q (ts ++ us) ≡ true
unfolding is_in
is_in-append_left q [] us h = cc
is_in-append_left q (t ∷ ts) us h = elim (Bool-cases (t == q)) [
  | inl same ↦ rw same refl
  | inr other ↦ rw other (is_in-append_left q ts us (ap (λ b. b || is_in q ts) (sym other) ∙ h))
]
