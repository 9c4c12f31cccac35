-- ===== src/HashedEdit.antt =====
-- The hash-addressed edits of privibe/core/tools/builtins/_hashed_core.py and the line hash of
-- privibe/core/tools/builtins/hashed_read.py: an address is a line's number and its content's hash, and
-- the shift map of a file follows the lines that earlier edits have moved.

mod Examples
pub mod Hash
pub mod Resolve
pub mod ShiftMap
pub mod Duplicates
use privibe.Prelude.{
  ℕ, zero, suc, ◌+◌, ◌-◌, ◌*◌, ◌/◌, ◌%◌, ◌^◌, ◌≤◌, ◌≡◌, Bool, true, false, not, ◌&&◌, ◌||◌, Option,
  none, some, List, [], ◌∷◌, ◌++◌, map, length, get_elem?, take, drop, ltb, leb, eqb, if◌then◌else◌,
}
use privibe.Prelude.Int.{ℤ, pos, negsuc, sub_ℕ, ◌+ℤ◌, pred_ℤ, ltb_ℤ, leb_ℤ}
use privibe.Prelude.Exec.{Result, ok, err}

-- A line of a file in UTF-8, its line ending included.
abbrev pub Line : Type 0
Line = List ℕ

-- The line's hash

abbrev is_newline : ℕ → Bool
is_newline c = eqb c 10 || eqb c 13

-- `line.rstrip("\r\n")`
pub rstrip_newlines : Line → Line
rstrip_newlines [] = []
rstrip_newlines (c ∷ cs) = elim (rstrip_newlines cs) [
  | [] ↦ if is_newline c then [] else c ∷ []
  | d ∷ ds ↦ c ∷ d ∷ ds
]

-- The two sums of Adler-32.
pub adler_sums : ℕ → ℕ → List ℕ → ℕ × ℕ
adler_sums a b [] = (a, b)
adler_sums a b (byte ∷ bytes) =
    let a' = (a + byte) % 65521 in adler_sums a' ((b + a') % 65521) bytes

-- `zlib.adler32(data)`
pub adler32 : List ℕ → ℕ
unfolding adler_sums
adler32 bytes = let (a, b) = adler_sums 1 0 bytes in b * 2 ^ 16 + a

hex_digit : ℕ → ℕ
hex_digit n = if ltb n 10 then 48 + n else 87 + n

-- `f"{n:04x}"` for a number of 16 bits.
pub hex4 : ℕ → List ℕ
unfolding hex_digit
hex4 n =
    hex_digit (n / 4096 % 16)
    ∷ hex_digit (n / 256 % 16)
    ∷ hex_digit (n / 16 % 16)
    ∷ hex_digit (n % 16)
    ∷ []

-- `_line_hash`
pub line_hash : List ℕ → List ℕ
unfolding adler32 hex4
line_hash content = hex4 (adler32 content % 2 ^ 16)

pub same_text : List ℕ → List ℕ → Bool
same_text [] [] = true
same_text [] (y ∷ ys) = false
same_text (x ∷ xs) [] = false
same_text (x ∷ xs) (y ∷ ys) = eqb x y && same_text xs ys

-- Addresses

pub record LineReplacement : Type 0 where
  pub line : ℤ
  pub hash : List ℕ
  pub new_content : List ℕ
  pub end_line : Option ℤ
  pub end_hash : Option (List ℕ)

pub data ResolveError : Type 0 where
  line_out_of_range end_hash_required end_line_out_of_range end_line_before_line
        replacements_overlap :
      ResolveError

pub record Resolved : Type 0 where
  pub start_idx : ℕ
  pub end_idx : ℕ
  pub replacement : LineReplacement

-- The line at an index has this hash.
pub hash_matches : List Line → ℕ → List ℕ → Bool
unfolding line_hash rstrip_newlines same_text
hash_matches file_lines i hash = elim (get_elem? file_lines i) [
  | none ↦ false
  | some line ↦ same_text (line_hash (rstrip_newlines line)) hash
]

end_hash_matches : LineReplacement → ℕ → List Line → Bool
unfolding hash_matches
end_hash_matches r end_idx file_lines = elim r.end_line [
  | none ↦ true
  | some _ ↦ elim r.end_hash [ none ↦ true | some hash ↦ hash_matches file_lines end_idx hash ]
]

-- `_address_ok`
pub address_ok : LineReplacement → ℤ → ℤ → List Line → Bool
unfolding end_hash_matches
address_ok r (pos s) (pos e) file_lines =
    (leb s e && ltb e (length file_lines))
    && (hash_matches file_lines s r.hash && end_hash_matches r e file_lines)
address_ok r (pos s) (negsuc e) file_lines = false
address_ok r (negsuc s) end_idx file_lines = false

-- `(r.line - 1, r.end_line - 1)`
pub start_of : LineReplacement → ℤ
start_of r = pred_ℤ r.line

pub end_of : LineReplacement → ℤ
unfolding start_of
end_of r = elim r.end_line [ none ↦ start_of r | some e ↦ pred_ℤ e ]

pub malformed : LineReplacement → Bool
malformed r = elim r.end_line [
  | none ↦ false
  | some _ ↦ elim r.end_hash [ none ↦ true | some _ ↦ false ]
]

-- One turn of the first loop of `resolve_replacements`.
pub resolve_range : ℕ → ℕ → ℤ → LineReplacement → Result ResolveError Resolved
resolve_range total s (negsuc e) r = err end_line_before_line
resolve_range total s (pos e) r =
    if leb total e
    then err end_line_out_of_range
    else (if ltb e s
        then err end_line_before_line
        else ok (record { start_idx = s; end_idx = e; replacement = r }))

pub resolve_one : ℕ → LineReplacement → Result ResolveError Resolved
unfolding start_of end_of malformed resolve_range
resolve_one total r = elim (start_of r) [
  | negsuc _ ↦ err line_out_of_range
  | pos s ↦
      if leb total s
      then err line_out_of_range
      else (if malformed r then err end_hash_required else resolve_range total s (end_of r) r)
]

pub resolve_each : ℕ → List LineReplacement → Result ResolveError (List Resolved)
unfolding resolve_one
resolve_each total [] = ok []
resolve_each total (r ∷ rs) = elim (resolve_one total r) [
  | err e ↦ err e
  | ok one ↦ elim (resolve_each total rs) [ err e ↦ err e | ok more ↦ ok (one ∷ more) ]
]

-- `sorted(resolved, key=lambda x: x[0])`, which is stable.
pub insert_by_start : Resolved → List Resolved → List Resolved
insert_by_start x [] = x ∷ []
insert_by_start x (y ∷ ys) =
    let rest = insert_by_start x ys in if leb x.start_idx y.start_idx then x ∷ y ∷ ys else y ∷ rest

pub sorted : List Resolved → List Resolved
unfolding insert_by_start
sorted [] = []
sorted (x ∷ xs) = insert_by_start x (sorted xs)

pub overlap : List Resolved → Bool
overlap [] = false
overlap (a ∷ []) = false
overlap (a ∷ b ∷ rest) = leb b.start_idx a.end_idx || overlap (b ∷ rest)

pub resolve_replacements : List LineReplacement → List Line → Result ResolveError (List Resolved)
unfolding resolve_each sorted overlap
resolve_replacements replacements file_lines =
    elim (resolve_each (length file_lines) replacements) [
      | err e ↦ err e
      | ok resolved ↦ if overlap (sorted resolved) then err replacements_overlap else ok resolved
    ]

pub record HashMismatch : Type 0 where
  pub line : ℤ
  pub expected : List ℕ

-- The mismatches that `validate_all_hashes` reports; it raises if there is one.
pub hash_errors : List Resolved → List Line → List HashMismatch
unfolding hash_matches
hash_errors [] file_lines = []
hash_errors (x ∷ xs) file_lines =
    let r : LineReplacement = x.replacement in
    let rest = hash_errors xs file_lines in
    let at_end : List HashMismatch = elim r.end_line [
      | none ↦ rest
      | some e ↦ elim r.end_hash [
        | none ↦ rest
        | some hash ↦
            if hash_matches file_lines x.end_idx hash
            then rest
            else record { line = e; expected = hash } ∷ rest
      ]
    ] in
    if hash_matches file_lines x.start_idx r.hash
    then at_end
    else record { line = r.line; expected = r.hash } ∷ at_end
