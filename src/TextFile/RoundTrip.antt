-- ===== src/TextFile/RoundTrip.antt =====
-- A file that is not edited is written back as it was read: privibe/core/utils/textfile.py.
use mathlib.Core.Path.{ap₂}
use privibe.Prelude.{
  ℕ, zero, suc, ◌-◌, ◌≡◌, refl, ap, ◌∙◌, Bool, true, false, List, [], ◌∷◌, ◌++◌, eqb, leb,
  if◌then◌else◌, length, map, take_all, length-map, arith, Bool-cases, inl, inr, All,
}
use privibe.TextFile.{
  Text, TextFile, Opcode, Tag, lf, same, split_keepends, ending_of, strip_ending, real_endings,
  count, winners, best_count, dominant_ending, is_final, from_text, with_default, kept_lines,
  strip_last, concat, appended, reattach_from, reattach_endings, render_text,
}
use privibe.TextFile.Split.{
  IsEnding, NoBreak, Lines, ending_of-NoBreak, ending_of-append, strip_ending-append,
  strip_ending-NoBreak, split_keepends-Lines, concat-split_keepends,
}

abbrev pub normal : Text → Text
normal line = strip_ending line ++ lf

pub kept_ended :
    (newline body ending : Text)
    → NoBreak body
    → IsEnding ending
    → strip_ending (normal (body ++ ending)) ++ with_default (ending_of (body ++ ending)) newline
      ≡ body ++ ending
kept_ended newline body ending h e =
    rw
      (
        strip_ending-append body ending h e,
        ending_of-append body ending h e,
        strip_ending-append body lf h IsEnding.line_feed,
      )
      (on e)
  where
    on : {x : Text} → IsEnding x → body ++ with_default x newline ≡ body ++ x
    on IsEnding.line_feed = refl
    on IsEnding.carriage_return = refl
    on IsEnding.both = refl

kept_open :
    (newline body : Text)
    → NoBreak body
    → strip_ending (normal body) ++ with_default (ending_of body) newline ≡ body ++ newline
kept_open newline body h =
    rw
      (
        strip_ending-NoBreak body h,
        ending_of-NoBreak body h,
        strip_ending-append body lf h IsEnding.line_feed,
      )
      refl

-- What the file's lines become, with the last ending taken off again if the file had none.
abbrev restored : Text → List Text → List Text
restored newline raw =
    let kept = kept_lines newline (map normal raw) (map ending_of raw) in
    if is_final (map ending_of raw) then kept else strip_last kept

if_cons :
    (b : Bool) (x : Text) (xs ys : List Text)
    → (if b then x ∷ xs else x ∷ ys) ≡ x ∷ (if b then xs else ys)
if_cons true x xs ys = refl
if_cons false x xs ys = refl

with_default-IsEnding : {x : Text} (newline : Text) → IsEnding x → with_default x newline ≡ x
with_default-IsEnding newline IsEnding.line_feed = refl
with_default-IsEnding newline IsEnding.carriage_return = refl
with_default-IsEnding newline IsEnding.both = refl

pub IsEnding-full : {x : Text} → IsEnding x → same x [] ≡ false
IsEnding-full IsEnding.line_feed = refl
IsEnding-full IsEnding.carriage_return = refl
IsEnding-full IsEnding.both = refl

restored_more :
    (newline body ending l : Text) (ls : List Text)
    → NoBreak body
    → IsEnding ending
    → restored newline (l ∷ ls) ≡ l ∷ ls
    → restored newline ((body ++ ending) ∷ l ∷ ls) ≡ (body ++ ending) ∷ l ∷ ls
unfolding kept_lines is_final strip_last
restored_more newline body ending l ls h e rest =
    let x =
      strip_ending (normal (body ++ ending)) ++ with_default (ending_of (body ++ ending)) newline in
    if_cons (is_final (map ending_of (l ∷ ls))) x _ _
    ∙ ap (x ∷◌) rest
    ∙ ap (◌∷ (l ∷ ls)) (kept_ended newline body ending h e)

restored-Lines :
    (newline : Text) (raw : List Text) → IsEnding newline → Lines raw → restored newline raw ≡ raw
unfolding kept_lines is_final strip_last
restored-Lines newline _ n Lines.empty = refl
restored-Lines newline _ n (Lines.open_end c cs h) =
    rw
      (
        ending_of-NoBreak (c ∷ cs) h,
        strip_ending-NoBreak (c ∷ cs) h,
        strip_ending-append (c ∷ cs) lf h IsEnding.line_feed,
        strip_ending-append (c ∷ cs) newline h n,
      )
      refl
restored-Lines newline _ n (Lines.ended body ending _ h e Lines.empty) =
    rw (ending_of-append body ending h e, IsEnding-full e)
      (ap (◌∷ []) (
        rw
          (
            strip_ending-append body ending h e,
            strip_ending-append body lf h IsEnding.line_feed,
            with_default-IsEnding newline e,
          )
          refl))
restored-Lines newline _ n (Lines.ended body ending _ h e (Lines.open_end c cs k)) =
    restored_more newline body ending (c ∷ cs) [] h e
      (restored-Lines newline _ n (Lines.open_end c cs k))
restored-Lines newline _ n (Lines.ended body ending _ h e (Lines.ended b d ls k f hs)) =
    restored_more newline body ending (b ++ d) ls h e
      (restored-Lines newline _ n (Lines.ended b d ls k f hs))

-- The endings that occur are endings, and so is the dominant one.
real_endings-All : (raw : List Text) → Lines raw → All IsEnding (real_endings (map ending_of raw))
unfolding real_endings
real_endings-All _ Lines.empty = tt
real_endings-All _ (Lines.open_end c cs h) = rw (ending_of-NoBreak (c ∷ cs) h) tt
real_endings-All _ (Lines.ended body ending ls h e hs) =
    rw (ending_of-append body ending h e) (on e (real_endings-All ls hs))
  where
    on :
        {x : Text}
        → IsEnding x
        → All IsEnding (real_endings (map ending_of ls))
        → All IsEnding (real_endings (x ∷ map ending_of ls))
    on IsEnding.line_feed h = (IsEnding.line_feed, h)
    on IsEnding.carriage_return h = (IsEnding.carriage_return, h)
    on IsEnding.both h = (IsEnding.both, h)

winners-All : (best : ℕ) (all es : List Text) → All IsEnding es → All IsEnding (winners best all es)
unfolding winners
winners-All best all [] h = tt
winners-All best all (e ∷ es) (h, hs) = elim (Bool-cases (eqb (count e all) best)) [
  | inl wins ↦ rw (winners, wins) (h, winners-All best all es hs)
  | inr loses ↦ rw (winners, loses) (winners-All best all es hs)
]

dominant_ending-IsEnding :
    (raw : List Text) (default : Text)
    → Lines raw
    → IsEnding default
    → IsEnding (dominant_ending (map ending_of raw) default)
unfolding dominant_ending
dominant_ending-IsEnding raw default h d =
    let all = real_endings (map ending_of raw) in
    on (winners (best_count all all) all all) (winners-All _ all all (real_endings-All raw h))
  where
    on :
        (ws : List Text)
        → All IsEnding ws
        → IsEnding (elim ws [
          | [] ↦ default
          | first ∷ others ↦ if leb 1 (count default (first ∷ others)) then default else first
        ])
    on [] k = d
    on (w ∷ ws) k = elim (Bool-cases (leb 1 (count default (w ∷ ws)))) [
      | inl e ↦ rw e d
      | inr e ↦ rw e k.0
    ]

-- What difflib answers for two equal rows of n lines.
abbrev pub unchanged : ℕ → List Opcode
unchanged zero = []
unchanged (suc n) = record { tag = Tag.equal; i1 = 0; i2 = suc n; j1 = 0; j2 = suc n } ∷ []

-- What from_text makes of the lines of a text.
abbrev file_of : List Text → Text → TextFile
file_of raw default = record {
  lines = map normal raw;
  endings = map ending_of raw;
  encoding = "utf-8";
  bom = false;
  had_final_newline = is_final (map ending_of raw);
  newline = dominant_ending (map ending_of raw) default;
  existed = true;
}

reattach_endings-unchanged :
    (raw : List Text) (default : Text)
    → reattach_endings (file_of raw default) (map normal raw) (unchanged (length (map normal raw)))
      ≡ restored (dominant_ending (map ending_of raw) default) raw
unfolding reattach_endings reattach_from appended kept_lines strip_last is_final
reattach_endings-unchanged [] default = refl
reattach_endings-unchanged (r ∷ rs) default =
    let final = is_final (map ending_of (r ∷ rs)) in
    let newline = dominant_ending (map ending_of (r ∷ rs)) default in
    let lines = map normal (r ∷ rs) in
    let endings = map ending_of (r ∷ rs) in
    ap₂ (λ ls es. if final then kept_lines newline ls es else strip_last (kept_lines newline ls es))
      (take_all lines (length lines - 0) (omega arith))
      (take_all endings (length lines - 0)
        (omega (arith, length-map (r ∷ rs) normal, length-map (r ∷ rs) ending_of)))

-- A text that is read and written with its lines as they are, is the same text, whatever line endings it
-- has and whether it ends with one, if a line break is the default.
pub render_text-from_text :
    (text default : Text)
    → IsEnding default
    → render_text
        (from_text text default)
        (from_text text default).lines
        (unchanged (length (from_text text default).lines))
      ≡ text
unfolding render_text from_text
render_text-from_text text default d =
    let raw = split_keepends text in
    let h = split_keepends-Lines text in
    ap concat (
      reattach_endings-unchanged raw default
      ∙ restored-Lines _ raw (dominant_ending-IsEnding raw default h d) h)
    ∙ concat-split_keepends text
