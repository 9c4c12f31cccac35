-- ===== src/TextFile.antt =====
-- Text files that are written back as they were found: privibe/core/utils/textfile.py. A text is the
-- list of its code points. What difflib and the codecs answer are arguments.
pub mod Split
pub mod RoundTrip
pub mod Kept
mod Examples
use privibe.Prelude.{
  ℕ, zero, suc, ◌+◌, ◌-◌, String, Bool, true, false, Option, none, some, List, [], ◌∷◌, ◌++◌, not,
  ◌&&◌, ◌||◌, eqb, ltb, leb, if◌then◌else◌, length, map, take, drop, get_last?, get_elem?,
}
use privibe.Prelude.Exec.{Result, ok, err}

abbrev pub Text : Type 0
Text = List ℕ

abbrev pub lf : Text
lf = 10 ∷ []

abbrev pub same : Text → Text → Bool
same [] [] = true
same [] (y ∷ ys) = false
same (x ∷ xs) [] = false
same (x ∷ xs) (y ∷ ys) = eqb x y && same xs ys

-- The lines of `c` and what follows it, from the lines of what follows.
unfoldable pub push : ℕ → List Text → List Text
push c [] = (c ∷ []) ∷ []
push c (l ∷ ls) =
    if eqb c 10
    then lf ∷ l ∷ ls
    else if eqb c 13
    then (if same l lf then (13 ∷ 10 ∷ []) ∷ ls else (13 ∷ []) ∷ l ∷ ls)
    else (c ∷ l) ∷ ls

-- `split_keepends`
unfoldable pub split_keepends : Text → List Text
unfolding push
split_keepends [] = []
split_keepends (c ∷ cs) = push c (split_keepends cs)

abbrev pub is_break : ℕ → Bool
is_break c = eqb c 10 || eqb c 13

unfoldable pub ending_of : Text → Text
ending_of [] = []
ending_of (c ∷ []) = if is_break c then c ∷ [] else []
ending_of (c ∷ d ∷ []) =
    let one = ending_of (d ∷ []) in if eqb c 13 && eqb d 10 then c ∷ d ∷ [] else one
ending_of (c ∷ d ∷ e ∷ es) = ending_of (d ∷ e ∷ es)

unfoldable pub strip_ending : Text → Text
unfolding ending_of
strip_ending line = take (length line - length (ending_of line)) line

-- The endings that are not empty.
unfoldable pub real_endings : List Text → List Text
real_endings [] = []
real_endings ([] ∷ es) = real_endings es
real_endings ((c ∷ cs) ∷ es) = (c ∷ cs) ∷ real_endings es

unfoldable pub count : Text → List Text → ℕ
count e [] = 0
count e (d ∷ ds) = let rest = count e ds in if same d e then suc rest else rest

unfoldable pub best_count : List Text → List Text → ℕ
unfolding count
best_count all [] = 0
best_count all (e ∷ es) =
    let rest = best_count all es in if ltb rest (count e all) then count e all else rest

unfoldable pub winners : ℕ → List Text → List Text → List Text
unfolding count
winners best all [] = []
winners best all (e ∷ es) =
    let rest = winners best all es in if eqb (count e all) best then e ∷ rest else rest

-- `dominant_ending`; the first of the winners is the one that the counter holds first.
unfoldable pub dominant_ending : List Text → Text → Text
unfolding real_endings best_count winners
dominant_ending endings default =
    let all = real_endings endings in
    elim (winners (best_count all all) all all) [
      | [] ↦ default
      | first ∷ others ↦ if leb 1 (count default (first ∷ others)) then default else first
    ]

pub record TextFile : Type 0 where
  pub lines : List Text
  pub endings : List Text
  pub encoding : String
  pub bom : Bool
  pub had_final_newline : Bool
  pub newline : Text
  pub existed : Bool

unfoldable pub is_final : List Text → Bool
is_final endings = elim (get_last? endings) [ none ↦ true | some e ↦ not (same e []) ]

unfoldable pub from_text : Text → Text → TextFile
unfolding strip_ending
from_text text default_newline =
    let raw = split_keepends text in
    let endings = map ending_of raw in
    record {
      lines = map (λ line. strip_ending line ++ lf) raw;
      endings = endings;
      encoding = "utf-8";
      bom = false;
      had_final_newline = is_final endings;
      newline = dominant_ending endings default_newline;
      existed = true;
    }

-- One of difflib's opcodes.
pub data Tag : Type 0 where
  equal replace delete insert : Tag

pub record Opcode : Type 0 where
  pub tag : Tag
  pub i1 : ℕ
  pub i2 : ℕ
  pub j1 : ℕ
  pub j2 : ℕ

abbrev pub with_default : Text → Text → Text
with_default [] default = default
with_default (c ∷ cs) default = c ∷ cs

abbrev pub slice {ℓ} : {A : Type ℓ} → ℕ → ℕ → List A → List A
slice i j xs = take (j - i) (drop i xs)

-- Surviving lines with their own endings.
unfoldable pub kept_lines : Text → List Text → List Text → List Text
kept_lines newline [] endings = []
kept_lines newline (l ∷ ls) [] = []
kept_lines newline (l ∷ ls) (e ∷ es) =
    (strip_ending l ++ with_default e newline) ∷ kept_lines newline ls es

-- Replacing lines, each with the ending of the line in its place, and the last such one after them.
unfoldable pub replaced_lines : Text → Text → List Text → List Text → List Text
replaced_lines newline last [] endings = []
replaced_lines newline last (l ∷ ls) [] =
    (strip_ending l ++ last) ∷ replaced_lines newline last ls []
replaced_lines newline last (l ∷ ls) (e ∷ es) =
    (strip_ending l ++ with_default e newline)
    ∷ replaced_lines newline (with_default e newline) ls es

-- The ending that inserted lines take: of the line above, of the next old line, or the file's.
unfoldable pub neighbour : TextFile → ℕ → List Text → Text
neighbour tf i2 out = elim (get_last? out) [
  | some above ↦ with_default (ending_of above) tf.newline
  | none ↦ elim (get_elem? tf.endings i2) [ some e ↦ with_default e tf.newline | none ↦ tf.newline ]
]

-- What one opcode appends.
unfoldable pub appended : TextFile → List Text → Opcode → List Text → List Text
unfolding kept_lines replaced_lines neighbour
appended tf new_lines op out = elim op.tag [
  | Tag.equal ↦ kept_lines tf.newline (slice op.i1 op.i2 tf.lines) (slice op.i1 op.i2 tf.endings)
  | Tag.delete ↦ []
  | Tag.replace ↦
      replaced_lines tf.newline tf.newline (slice op.j1 op.j2 new_lines)
        (slice op.i1 op.i2 tf.endings)
  | Tag.insert ↦
      let ending = neighbour tf op.i2 out in
      map (λ l. strip_ending l ++ ending) (slice op.j1 op.j2 new_lines)
]

unfoldable pub reattach_from : TextFile → List Text → List Opcode → List Text → List Text
unfolding appended
reattach_from tf new_lines [] out = out
reattach_from tf new_lines (op ∷ ops) out =
    reattach_from tf new_lines ops (out ++ appended tf new_lines op out)

unfoldable pub strip_last : List Text → List Text
strip_last [] = []
strip_last (l ∷ []) = strip_ending l ∷ []
strip_last (l ∷ m ∷ ms) = l ∷ strip_last (m ∷ ms)

-- `reattach_endings`, with the opcodes from the old lines to the new ones.
unfoldable pub reattach_endings : TextFile → List Text → List Opcode → List Text
unfolding reattach_from strip_last
reattach_endings tf new_lines ops =
    let out = reattach_from tf new_lines ops [] in
    if tf.had_final_newline then out else strip_last out

unfoldable pub concat : List Text → Text
concat [] = []
concat (l ∷ ls) = l ++ concat ls

unfoldable pub render_text : TextFile → List Text → List Opcode → Text
unfolding reattach_endings concat
render_text tf new_lines ops =
    let body = concat (reattach_endings tf new_lines ops) in if tf.bom then 65279 ∷ body else body
