-- ===== src/TextFile/Kept.antt =====
-- Lines that an edit does not touch: reattach_endings of privibe/core/utils/textfile.py.
use privibe.Prelude.{
  ℕ, zero, suc, ◌-◌, ◌≡◌, refl, sym, ap, ◌∙◌, true, false, List, [], ◌∷◌, ◌++◌, append-nil,
  append_assoc, map, take, drop, if◌then◌else◌, not, All,
}
use privibe.TextFile.{
  Text, TextFile, Opcode, Tag, same, slice, split_keepends, ending_of, is_final, from_text,
  kept_lines, appended, reattach_from, reattach_endings,
}
use privibe.TextFile.Split.{IsEnding, NoBreak, Lines, ending_of-NoBreak, split_keepends-Lines}
use privibe.TextFile.RoundTrip.{normal, kept_ended}
use mathlib.Core.Path.{ap₂, subst}
use privibe.TextFile.{strip_ending, with_default}
use privibe.TextFile.{strip_last}

-- A line with its ending.
record IsEnded (line : Text) : Type 0 where
  body : Text
  ending : Text
  no_break : NoBreak body
  is_ending : IsEnding ending
  parts : body ++ ending ≡ line

Lines-IsEnded :
    (raw : List Text) → Lines raw → is_final (map ending_of raw) ≡ true → All IsEnded raw
unfolding is_final
Lines-IsEnded _ Lines.empty e = tt
Lines-IsEnded _ (Lines.open_end c cs h) e =
    let no : false ≡ true = ap (λ x. not (same x [])) (sym (ending_of-NoBreak (c ∷ cs) h)) ∙ e in cc
Lines-IsEnded _ (Lines.ended body ending _ h k Lines.empty) e =
    (record { body = body; ending = ending; no_break = h; is_ending = k; parts = refl }, tt)
Lines-IsEnded _ (Lines.ended body ending _ h k (Lines.open_end c cs l)) e = (
  record { body = body; ending = ending; no_break = h; is_ending = k; parts = refl },
  Lines-IsEnded _ (Lines.open_end c cs l) e,
)
Lines-IsEnded _ (Lines.ended body ending _ h k (Lines.ended b d ls m f hs)) e = (
  record { body = body; ending = ending; no_break = h; is_ending = k; parts = refl },
  Lines-IsEnded _ (Lines.ended b d ls m f hs) e,
)

All-take : (n : ℕ) (ls : List Text) → All IsEnded ls → All IsEnded (take n ls)
All-take zero ls h = tt
All-take (suc n) [] h = tt
All-take (suc n) (l ∷ ls) (h, hs) = (h, All-take n ls hs)

All-drop : (n : ℕ) (ls : List Text) → All IsEnded ls → All IsEnded (drop n ls)
All-drop zero ls h = h
All-drop (suc n) [] h = tt
All-drop (suc n) (l ∷ ls) (h, hs) = All-drop n ls hs

take-map : (f : Text → Text) (n : ℕ) (ls : List Text) → take n (map f ls) ≡ map f (take n ls)
take-map f zero ls = refl
take-map f (suc n) [] = refl
take-map f (suc n) (l ∷ ls) = ap (f l ∷◌) (take-map f n ls)

drop-map : (f : Text → Text) (n : ℕ) (ls : List Text) → drop n (map f ls) ≡ map f (drop n ls)
drop-map f zero ls = refl
drop-map f (suc n) [] = refl
drop-map f (suc n) (l ∷ ls) = drop-map f n ls

slice-map :
    (f : Text → Text) (i j : ℕ) (ls : List Text) → slice i j (map f ls) ≡ map f (slice i j ls)
slice-map f i j ls = ap (take (j - i)) (drop-map f i ls) ∙ take-map f (j - i) (drop i ls)

kept_lines-IsEnded :
    (newline : Text) (ls : List Text)
    → All IsEnded ls
    → kept_lines newline (map normal ls) (map ending_of ls) ≡ ls
unfolding kept_lines
kept_lines-IsEnded newline [] h = refl
kept_lines-IsEnded newline (l ∷ ls) (h, hs) =
    ap₂ (λ x xs. x ∷ xs)
      (subst (λ line. strip_ending (normal line) ++ with_default (ending_of line) newline ≡ line)
        h.parts (kept_ended newline h.body h.ending h.no_break h.is_ending))
      (kept_lines-IsEnded newline ls hs)

module _ (tf : TextFile) (new_lines : List Text) where
  reattach_from-append :
      (ops more : List Opcode) (out : List Text)
      → reattach_from tf new_lines (ops ++ more) out
        ≡ reattach_from tf new_lines more (reattach_from tf new_lines ops out)
  unfolding reattach_from
  reattach_from-append [] more out = refl
  reattach_from-append (op ∷ ops) more out =
      reattach_from-append ops more (out ++ appended tf new_lines op out)

  -- What is there stays in front.
  reattach_from-keeps :
      (ops : List Opcode) (out : List Text)
      → (later : List Text) × (reattach_from tf new_lines ops out ≡ out ++ later)
  unfolding reattach_from
  reattach_from-keeps [] out = ([], sym (append-nil out))
  reattach_from-keeps (op ∷ ops) out =
      let added = appended tf new_lines op out in
      let (later, e) = reattach_from-keeps ops (out ++ added) in
      (added ++ later, e ∙ append_assoc out added later)

reattach_endings-final :
    (tf : TextFile) (new_lines : List Text) (ops : List Opcode)
    → tf.had_final_newline ≡ true
    → reattach_endings tf new_lines ops ≡ reattach_from tf new_lines ops []
unfolding reattach_endings
reattach_endings-final tf new_lines ops final =
    let out = reattach_from tf new_lines ops [] in ap (λ b. if b then out else strip_last out) final

kept_block :
    (text default : Text) (new_lines : List Text) (op : Opcode) (out : List Text)
    → (from_text text default).had_final_newline ≡ true
    → op.tag ≡ Tag.equal
    → appended (from_text text default) new_lines op out ≡ slice op.i1 op.i2 (split_keepends text)
unfolding appended from_text
kept_block text default new_lines op out final equal =
    let raw = split_keepends text in
    let newline = (from_text text default).newline in
    let h = Lines-IsEnded raw (split_keepends-Lines text) final in
    rw (appended, equal)
      (ap₂ (kept_lines newline) (slice-map normal op.i1 op.i2 raw)
          (slice-map ending_of op.i1 op.i2 raw)
        ∙ kept_lines-IsEnded newline (slice op.i1 op.i2 raw)
            (All-take (op.i2 - op.i1) (drop op.i1 raw) (All-drop op.i1 raw h)))

-- In a file whose last line has an ending, the lines of a block that an edit leaves as it is are written
-- as they were read, endings included, whatever stands before and after it.
pub reattach_endings-keeps :
    (text default : Text) (new_lines : List Text) (before after : List Opcode) (op : Opcode)
    → (from_text text default).had_final_newline ≡ true
    → op.tag ≡ Tag.equal
    → (above : List Text) × (below : List Text) × (reattach_endings
          (from_text text default)
          new_lines
          (before ++ op ∷ after)
        ≡ above ++ slice op.i1 op.i2 (split_keepends text) ++ below)
unfolding reattach_from
reattach_endings-keeps text default new_lines before after op final equal =
    let tf = from_text text default in
    let raw = split_keepends text in
    let out = reattach_from tf new_lines before [] in
    let kept = kept_block text default new_lines op out final equal in
    let (below, e) = reattach_from-keeps tf new_lines after (out ++ slice op.i1 op.i2 raw) in
    let row =
      reattach_from-append tf new_lines before (op ∷ after) []
      ∙ unfold reattach_from in ap (λ ls. reattach_from tf new_lines after (out ++ ls)) kept ∙ e in
    (out, below, reattach_endings-final tf new_lines (before ++ op ∷ after) final ∙ row)
