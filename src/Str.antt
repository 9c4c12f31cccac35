-- ===== src/Str.antt =====
-- Methods of Python's `str` that several modules use, and the decimal digits of an int.
pub mod Members
use Prim.Native.Char.{code}
use Prim.Native.Nat.{Ordering}
use Prim.Native.String.{◌++◌, compare}
use text.Mathlib.Text.{starts_with}
use Prim.Native.String.append
use privibe.Prelude.{
  Option, none, some, false, ◌==◌, ℕ, String, zero, suc, ◌+◌, ◌/◌, ◌%◌, ◌≤◌, ◌≡◌, refl, Bool, ◌||◌,
  ◌&&◌, List, [], ◌∷◌, ltb, leb, eqb, if◌then◌else◌, arith, ap,
}

-- `str.isspace`, for one code point.
unfoldable pub is_space : ℕ → Bool
is_space c =
    (leb 9 c && leb c 13)
    || ((leb 28 c && leb c 32)
        || (eqb c 133
            || (eqb c 160
                || (eqb c 5760
                    || ((leb 8192 c && leb c 8202)
                        || (eqb c 8232
                            || (eqb c 8233 || (eqb c 8239 || (eqb c 8287 || eqb c 12288)))))))))

unfoldable pub lstrip : String → String
unfolding is_space
lstrip String.[] = ""
lstrip (String.◌∷◌ c cs) =
    let rest = lstrip cs in if is_space (code c) then rest else String.◌∷◌ c cs

unfoldable pub rstrip : String → String
unfolding is_space
rstrip String.[] = ""
rstrip (String.◌∷◌ c cs) = elim (rstrip cs) [
  | String.[] ↦ if is_space (code c) then "" else String.◌∷◌ c ""
  | String.◌∷◌ d ds ↦ String.◌∷◌ c (String.◌∷◌ d ds)
]

unfoldable pub strip : String → String
unfolding lstrip rstrip
strip text = rstrip (lstrip text)

-- `len(text)`
unfoldable pub len : String → ℕ
len String.[] = 0
len (String.◌∷◌ c cs) = suc (len cs)

-- `text[:n]`
unfoldable pub first_chars : ℕ → String → String
first_chars zero text = ""
first_chars (suc n) String.[] = ""
first_chars (suc n) (String.◌∷◌ c cs) = String.◌∷◌ c (first_chars n cs)

-- `text[n:]`
unfoldable pub chars_from : ℕ → String → String
chars_from zero text = text
chars_from (suc n) String.[] = ""
chars_from (suc n) (String.◌∷◌ c cs) = chars_from n cs

-- `sep.join(parts)`
unfoldable pub join : String → List String → String
join sep [] = ""
join sep (part ∷ []) = part
join sep (part ∷ next ∷ parts) = part ++ (sep ++ join sep (next ∷ parts))

abbrev digit : ℕ → String
digit d =
    if eqb d 0
    then "0"
    else if eqb d 1
    then "1"
    else if eqb d 2
    then "2"
    else if eqb d 3
    then "3"
    else if eqb d 4
    then "4"
    else if eqb d 5
    then "5"
    else if eqb d 6
    then "6"
    else if eqb d 7
    then "7"
    else if eqb d 8
    then "8"
    else "9"

decimal_from : ℕ → ℕ → String → String
decimal_from zero n digits = digits
decimal_from (suc fuel) n digits =
    let all = digit (n % 10) ++ digits in
    let rest = decimal_from fuel (n / 10) all in if ltb n 10 then all else rest

-- `str(n)`: a number has fewer digits than its successor has units, which is fuel enough.
unfoldable pub decimal : ℕ → String
unfolding decimal_from
decimal n = decimal_from (suc n) n ""

decimal_2026 : decimal 2026 ≡ "2026"
unfolding decimal
decimal_2026 = refl

pub len-append : (a b : String) → len (a ++ b) ≡ len a + len b
unfolding len
len-append String.[] b = rw (append.nil b) (omega arith)
len-append (String.◌∷◌ c a) b = rw (append.cons c a b) (omega (arith, len-append a b))

pub len-first_chars-le : (n : ℕ) (text : String) → len (first_chars n text) ≤ n
unfolding len first_chars
len-first_chars-le zero text = omega arith
len-first_chars-le (suc n) String.[] = omega arith
len-first_chars-le (suc n) (String.◌∷◌ c cs) = omega (arith, len-first_chars-le n cs)

pub len-rstrip : (text : String) → len (rstrip text) ≤ len text
unfolding rstrip len
len-rstrip String.[] = omega arith
len-rstrip (String.◌∷◌ c cs) = on_rest (rstrip cs) refl (len-rstrip cs)
  where
    on_rest :
        (rest : String)
        → rstrip cs ≡ rest
        → len (rstrip cs) ≤ len cs
        → len (rstrip (String.◌∷◌ c cs)) ≤ len (String.◌∷◌ c cs)
    on_rest String.[] e h = rw (e, rstrip) (ground arith)
    on_rest (String.◌∷◌ d ds) e h = rw (e, rstrip) (omega (arith, h, ap len e))

-- `text.endswith(suffix)`
unfoldable pub ends_with : String → String → Bool
ends_with String.[] suffix = suffix == ""
ends_with (String.◌∷◌ c cs) suffix = String.◌∷◌ c cs == suffix || ends_with cs suffix

-- `text.strip(chars)`, with a test of a code point for the set of characters.
module _ (drops : ℕ → Bool) where
  unfoldable pub lstrip_by : String → String
  lstrip_by String.[] = ""
  lstrip_by (String.◌∷◌ c cs) =
      let rest = lstrip_by cs in if drops (code c) then rest else String.◌∷◌ c cs

  unfoldable pub rstrip_by : String → String
  rstrip_by String.[] = ""
  rstrip_by (String.◌∷◌ c cs) = elim (rstrip_by cs) [
    | String.[] ↦ if drops (code c) then "" else String.◌∷◌ c ""
    | String.◌∷◌ d ds ↦ String.◌∷◌ c (String.◌∷◌ d ds)
  ]

  unfoldable pub strip_by : String → String
  unfolding lstrip_by rstrip_by
  strip_by text = rstrip_by (lstrip_by text)

-- What follows the first line break, if there is one.
unfoldable pub after_newline : String → Option String
after_newline String.[] = none
after_newline (String.◌∷◌ c cs) =
    let rest = after_newline cs in if eqb (code c) 10 then some cs else rest

-- What stands before the last occurrence of a mark, or the whole text: `text.rsplit(mark, 1)[0]`.
find_last : String → String → Option String
find_last mark String.[] = none
find_last mark (String.◌∷◌ c cs) = elim (find_last mark cs) [
  | some before ↦ some (String.◌∷◌ c before)
  | none ↦ if starts_with (String.◌∷◌ c cs) mark then some "" else none
]

unfoldable pub before_last : String → String → String
unfolding find_last
before_last mark text = elim (find_last mark text) [ none ↦ text | some before ↦ before ]

-- `sorted(texts)`
unfoldable pub insert_sorted : String → List String → List String
insert_sorted s [] = s ∷ []
insert_sorted s (t ∷ ts) =
    let rest = insert_sorted s ts in elim (compare s t) [ Ordering.gt ↦ t ∷ rest | _ ↦ s ∷ t ∷ ts ]

unfoldable pub sorted : List String → List String
unfolding insert_sorted
sorted [] = []
sorted (s ∷ ts) = insert_sorted s (sorted ts)

-- `s in texts`
unfoldable pub is_in : String → List String → Bool
is_in s [] = false
is_in s (t ∷ ts) = t == s || is_in s ts

-- `c in text`, for a code point.
abbrev pub is_char_of : String → ℕ → Bool
is_char_of String.[] c = false
is_char_of (String.◌∷◌ d ds) c = eqb (code d) c || is_char_of ds c

-- What follows the first occurrence of a code point, if there is one.
unfoldable pub after_char : ℕ → String → Option String
after_char c String.[] = none
after_char c (String.◌∷◌ d ds) =
    let rest = after_char c ds in if eqb (code d) c then some ds else rest

-- The word that a text begins with, which may be empty, and the later words.
pieces : String → String × List String
unfolding is_space
pieces String.[] = ("", [])
pieces (String.◌∷◌ c cs) =
    let (word, words) = pieces cs in
    if is_space (code c)
    then ("", if word == "" then words else word ∷ words)
    else (String.◌∷◌ c word, words)

-- `text.split()`
unfoldable pub split : String → List String
unfolding pieces
split text = let (word, words) = pieces text in if word == "" then words else word ∷ words

split_words : split "  git  log -1 " ≡ "git" ∷ "log" ∷ "-1" ∷ []
unfolding split
split_words = refl

-- A list without what it holds twice, as a set of texts.
unfoldable pub distinct : List String → List String
unfolding is_in
distinct [] = []
distinct (t ∷ ts) = let rest = distinct ts in if is_in t rest then rest else t ∷ rest
