-- ===== src/TextFile/Examples.antt =====
-- A file with two kinds of line endings and an unterminated last line, and an edit of one line.
use privibe.Prelude.{◌≡◌, refl, List, [], ◌∷◌, ◌++◌, length}
use privibe.TextFile.{
  Text, Opcode, Tag, slice, push, split_keepends, ending_of, strip_ending, is_final, from_text,
  reattach_endings, render_text,
}
use privibe.TextFile.Split.{IsEnding}
use privibe.TextFile.RoundTrip.{unchanged, render_text-from_text}
use privibe.TextFile.Kept.{reattach_endings-keeps}
use privibe.TextFile.{reattach_from, appended, kept_lines, replaced_lines}

-- "a\r\nb\nc"
abbrev mixed : Text
mixed = 97 ∷ 13 ∷ 10 ∷ 98 ∷ 10 ∷ 99 ∷ []

render_text-from_text_example :
    render_text
      (from_text mixed (10 ∷ []))
      (from_text mixed (10 ∷ [])).lines
      (unchanged (length (from_text mixed (10 ∷ [])).lines))
    ≡ mixed
render_text-from_text_example = render_text-from_text mixed (10 ∷ []) IsEnding.line_feed

-- "a\r\nb\n"
abbrev two_lines : Text
two_lines = 97 ∷ 13 ∷ 10 ∷ 98 ∷ 10 ∷ []

abbrev first_equal : Opcode
first_equal = record { tag = Tag.equal; i1 = 0; i2 = 1; j1 = 0; j2 = 1 }

abbrev second_replaced : Opcode
second_replaced = record { tag = Tag.replace; i1 = 1; i2 = 2; j1 = 1; j2 = 2 }

abbrev edited : List Text
edited = (97 ∷ 10 ∷ []) ∷ (120 ∷ 10 ∷ []) ∷ []

written :
    reattach_endings (from_text two_lines (10 ∷ [])) edited (first_equal ∷ second_replaced ∷ [])
    ≡ (97 ∷ 13 ∷ 10 ∷ []) ∷ (120 ∷ 10 ∷ []) ∷ []
unfolding from_text reattach_endings split_keepends push ending_of strip_ending is_final
    reattach_from appended kept_lines replaced_lines
written = refl

reattach_endings-keeps_example :
    (above : List Text) × (below : List Text) × (reattach_endings
        (from_text two_lines (10 ∷ []))
        edited
        (first_equal ∷ second_replaced ∷ [])
      ≡ above ++ slice 0 1 (split_keepends two_lines) ++ below)
unfolding from_text split_keepends push ending_of is_final
reattach_endings-keeps_example =
    reattach_endings-keeps two_lines (10 ∷ []) edited [] (second_replaced ∷ []) first_equal refl
      refl
