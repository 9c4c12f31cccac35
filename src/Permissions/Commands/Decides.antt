-- ===== src/Permissions/Commands/Decides.antt =====
-- Searches that decide a property, and tests of all commands or of any.
use text.Mathlib.TextPositions.{eq_refl}
use privibe.Prelude.{
  ◌==◌, ◌≡◌, refl, sym, ap, ◌∙◌, String, Bool, true, false, not, Option, none, some, List, [], ◌∷◌,
  inl, inr, ◌&&◌, ◌||◌, if◌then◌else◌, Bool-cases, All,
}
use privibe.Str.{is_in}
use privibe.Permissions.Commands.{any_of, all_of}
use privibe.Permissions.Tokens.{no_texts}
use privibe.Permissions.Commands.Covers.{or_later}

-- `P` holds if nothing is found, and does not if something is.
abbrev pub Decides : {A : Type 0} → Type 0 → Option A → Type 0
Decides P none = P
Decides P (some a) = ¬ P

pub Decides-if :
    {A : Type 0} (P : Type 0) (b : Bool) (a : A) (found : Option A)
    → Decides P found
    → Decides ((b ≡ false) × P) (if b then some a else found)
Decides-if P true a found h = λ both. let no : true ≡ false = both.0 in cc
Decides-if P false a none h = (refl, h)
Decides-if P false a (some x) h = λ both. h both.1

pub Decides-else :
    {A B : Type 0} (P Q : Type 0) (d : Option A) (f : A → B) (found : Option B)
    → Decides P d
    → Decides Q found
    → Decides (P × Q) (elim d [ some x ↦ some (f x) | none ↦ found ])
Decides-else P Q none f none h k = (h, k)
Decides-else P Q none f (some y) h k = λ both. k both.1
Decides-else P Q (some x) f found h k = λ both. h both.0

pub Decides-map :
    {A P Q : Type 0} (found : Option A) → (P → Q) → (Q → P) → Decides P found → Decides Q found
Decides-map none f g h = f h
Decides-map (some a) f g h = λ q. h (g q)

pub true-ne-false : {b : Bool} → b ≡ true → b ≡ false → ⊥
true-ne-false e f = cc

pub any_of-none :
    (test : String → Bool) (ts : List String)
    → any_of test ts ≡ false
    → All (λ t. test t ≡ false) ts
unfolding any_of
any_of-none test [] e = tt
any_of-none test (t ∷ ts) e = elim (Bool-cases (test t)) [
  | inl holds ↦ absurd (true-ne-false refl (ap (λ b. b || any_of test ts) (sym holds) ∙ e))
  | inr fails ↦ (fails, any_of-none test ts (ap (λ b. b || any_of test ts) (sym fails) ∙ e))
]

pub all_of-All :
    (test : String → Bool) (ts : List String) → all_of test ts ≡ true → All (λ t. test t ≡ true) ts
unfolding all_of
all_of-All test [] e = tt
all_of-All test (t ∷ ts) e = elim (Bool-cases (test t)) [
  | inl holds ↦ (holds, all_of-All test ts (ap (λ b. b && all_of test ts) (sym holds) ∙ e))
  | inr fails ↦ absurd (true-ne-false e (ap (λ b. b && all_of test ts) fails))
]

pub All-both :
    (P Q : String → Type 0) (ts : List String) → All P ts → All Q ts → All (λ t. P t × Q t) ts
All-both P Q [] h k = tt
All-both P Q (t ∷ ts) (h, hs) (k, ks) = ((h, k), All-both P Q ts hs ks)

pub All-members :
    (P : String → Type 0) (ts : List String) → ((t : String) → is_in t ts ≡ true → P t) → All P ts
unfolding is_in
All-members P [] f = tt
All-members P (t ∷ ts) f =
    (f t (rw (eq_refl t) refl), All-members P ts (λ u h. f u (or_later (t == u) (is_in u ts) h)))

pub no_texts-nil : (ts : List String) → no_texts ts ≡ true → ts ≡ []
no_texts-nil [] e = refl
no_texts-nil (t ∷ ts) e = cc

pub both_true : (a b : Bool) → (a && b) ≡ true → (a ≡ true) × (b ≡ true)
both_true true b e = (refl, e)
both_true false b e = cc

pub not-true : (a : Bool) → not a ≡ true → a ≡ false
not-true true e = cc
not-true false e = refl
