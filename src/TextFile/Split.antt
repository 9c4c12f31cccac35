-- ===== src/TextFile/Split.antt =====
-- The lines of a text and their endings: privibe/core/utils/textfile.py.
use privibe.Prelude.{
  ℕ, ◌-◌, ◌≡◌, refl, ap, ◌∙◌, Bool, true, false, List, [], ◌∷◌, ◌++◌, ◌&&◌, eqb, length,
  length-append, take-append, take_all, arith, Bool-cases, inl, inr, All,
}
use privibe.TextFile.{
  Text, lf, same, push, split_keepends, is_break, ending_of, strip_ending, concat,
}

pub data IsEnding : Text → Type 0 where
  line_feed : IsEnding (10 ∷ [])
  carriage_return : IsEnding (13 ∷ [])
  both : IsEnding (13 ∷ 10 ∷ [])

abbrev pub NoBreak : Text → Type 0
NoBreak body = All (λ c. is_break c ≡ false) body

-- The lines after the first, and the lines with a character in front.
abbrev rest_of : List Text → List Text
rest_of [] = []
rest_of (l ∷ ls) = ls

abbrev onto : ℕ → List Text → List Text
onto c [] = (c ∷ []) ∷ []
onto c (l ∷ ls) = (c ∷ l) ∷ ls

-- Lines that each have an ending, the last one perhaps none.
pub data Lines : List Text → Type 0 where
  empty : Lines []
  open_end : (c : ℕ) (cs : Text) → NoBreak (c ∷ cs) → Lines ((c ∷ cs) ∷ [])
  ended :
      (body ending : Text) (ls : List Text)
      → NoBreak body
      → IsEnding ending
      → Lines ls
      → Lines ((body ++ ending) ∷ ls)

pub ending_of-NoBreak : (body : Text) → NoBreak body → ending_of body ≡ []
unfolding ending_of
ending_of-NoBreak [] h = refl
ending_of-NoBreak (c ∷ []) (h, hs) = rw h refl
ending_of-NoBreak (c ∷ d ∷ []) (h, hs) =
    let rest = ending_of-NoBreak (d ∷ []) hs in ground (arith, rest)
ending_of-NoBreak (c ∷ d ∷ e ∷ es) (h, hs) = ending_of-NoBreak (d ∷ e ∷ es) hs

pub ending_of-append :
    (body ending : Text) → NoBreak body → IsEnding ending → ending_of (body ++ ending) ≡ ending
unfolding ending_of
ending_of-append [] _ h IsEnding.line_feed = refl
ending_of-append [] _ h IsEnding.carriage_return = refl
ending_of-append [] _ h IsEnding.both = refl
ending_of-append (c ∷ []) _ (h, hs) IsEnding.line_feed = ground arith
ending_of-append (c ∷ []) _ (h, hs) IsEnding.carriage_return = ground arith
ending_of-append (c ∷ []) _ (h, hs) IsEnding.both = refl
ending_of-append (c ∷ d ∷ []) _ (h, hs) IsEnding.line_feed =
    ending_of-append (d ∷ []) _ hs IsEnding.line_feed
ending_of-append (c ∷ d ∷ []) _ (h, hs) IsEnding.carriage_return =
    ending_of-append (d ∷ []) _ hs IsEnding.carriage_return
ending_of-append (c ∷ d ∷ []) _ (h, hs) IsEnding.both = ending_of-append (d ∷ []) _ hs IsEnding.both
ending_of-append (c ∷ d ∷ x ∷ xs) ending (h, hs) e = ending_of-append (d ∷ x ∷ xs) ending hs e

pub strip_ending-append :
    (body ending : Text) → NoBreak body → IsEnding ending → strip_ending (body ++ ending) ≡ body
unfolding strip_ending
strip_ending-append body ending h e = rw (ending_of-append body ending h e) (
    take-append body ending (length (body ++ ending) - length ending)
      (omega (arith, length-append body ending)))

pub strip_ending-NoBreak : (body : Text) → NoBreak body → strip_ending body ≡ body
unfolding strip_ending
strip_ending-NoBreak body h = rw (ending_of-NoBreak body h) (take_all body _ (omega arith))

and_false-true : (a : Bool) → (a && false) ≡ true → ⊥
and_false-true true e = cc
and_false-true false e = cc

same-lf : (l : Text) → same l lf ≡ true → l ≡ lf
same-lf [] e = cc
same-lf (x ∷ []) e = ground arith
same-lf (x ∷ y ∷ ys) e = absurd (and_false-true (eqb x 10) e)

Lines-tail : (l : Text) (ls : List Text) → Lines (l ∷ ls) → Lines ls
Lines-tail l ls h = tail (l ∷ ls) h
  where
    tail : (xs : List Text) → Lines xs → Lines (rest_of xs)
    tail _ Lines.empty = Lines.empty
    tail _ (Lines.open_end c cs h) = Lines.empty
    tail _ (Lines.ended body ending ls h e hs) = hs

-- A character that is no break stands in front of the first line.
push_plain : (c : ℕ) (ls : List Text) → is_break c ≡ false → Lines ls → Lines (onto c ls)
push_plain c _ h Lines.empty = Lines.open_end c [] (h, tt)
push_plain c _ h (Lines.open_end d ds k) = Lines.open_end c (d ∷ ds) (h, k)
push_plain c _ h (Lines.ended body ending ls k e hs) = Lines.ended (c ∷ body) ending ls (h, k) e hs

push-Lines : (c : ℕ) (ls : List Text) → Lines ls → Lines (push c ls)
unfolding push
push-Lines c [] h = elim (Bool-cases (eqb c 10)) [
  | inl e ↦
      let is : c ≡ 10 = ground arith in
      rw is (Lines.ended [] lf [] tt IsEnding.line_feed Lines.empty)
  | inr n ↦ elim (Bool-cases (eqb c 13)) [
    | inl e ↦
        let is : c ≡ 13 = ground arith in
        rw is (Lines.ended [] (13 ∷ []) [] tt IsEnding.carriage_return Lines.empty)
    | inr m ↦ push_plain c [] (ground arith) Lines.empty
  ]
]
push-Lines c (l ∷ ls) h = elim (Bool-cases (eqb c 10)) [
  | inl e ↦ rw (push, e) (Lines.ended [] lf (l ∷ ls) tt IsEnding.line_feed h)
  | inr n ↦ elim (Bool-cases (eqb c 13)) [
    | inl e ↦ elim (Bool-cases (same l lf)) [
      | inl feed ↦
          rw (push, n, e, feed)
            (Lines.ended [] (13 ∷ 10 ∷ []) ls tt IsEnding.both (Lines-tail l ls h))
      | inr other ↦
          rw (push, n, e, other) (Lines.ended [] (13 ∷ []) (l ∷ ls) tt IsEnding.carriage_return h)
    ]
    | inr m ↦ rw (push, n, m) (push_plain c (l ∷ ls) (ground arith) h)
  ]
]

pub split_keepends-Lines : (text : Text) → Lines (split_keepends text)
unfolding split_keepends
split_keepends-Lines [] = Lines.empty
split_keepends-Lines (c ∷ cs) = push-Lines c (split_keepends cs) (split_keepends-Lines cs)

concat-push : (c : ℕ) (ls : List Text) → concat (push c ls) ≡ c ∷ concat ls
unfolding push concat
concat-push c [] = refl
concat-push c (l ∷ ls) = elim (Bool-cases (eqb c 10)) [
  | inl e ↦ let is : c ≡ 10 = ground arith in rw (push, e, is) refl
  | inr n ↦ elim (Bool-cases (eqb c 13)) [
    | inl e ↦
        let is : c ≡ 13 = ground arith in
        elim (Bool-cases (same l lf)) [
          | inl feed ↦ rw (push, n, e, feed, is, same-lf l feed) refl
          | inr other ↦ rw (push, n, e, other, is) refl
        ]
    | inr m ↦ rw (push, n, m) refl
  ]
]

-- No character is lost or added.
pub concat-split_keepends : (text : Text) → concat (split_keepends text) ≡ text
unfolding split_keepends concat
concat-split_keepends [] = refl
concat-split_keepends (c ∷ cs) =
    concat-push c (split_keepends cs) ∙ ap (c ∷◌) (concat-split_keepends cs)
