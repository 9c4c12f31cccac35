-- ===== src/Ledger/Capped.antt =====
-- A capped text stays under its limit.
use privibe.Prelude.{ℕ, ◌-◌, ◌≤◌, ◌≡◌, refl, String, leb, arith, Bool-cases, inl, inr, leb→le}
use privibe.Str.{strip, rstrip, len, first_chars, len-append, len-rstrip, len-first_chars-le}
use privibe.Ledger.{cap_text, truncation_mark}

-- A text that fits the limit is only stripped, and every text is cut to the limit, marker included, if
-- the marker itself fits.
pub len-cap_text :
    (text : String) (limit : ℕ)
    → (len (strip text) ≤ limit → cap_text text limit ≡ strip text)
      × (len (truncation_mark limit) ≤ limit → len (cap_text text limit) ≤ limit)
unfolding cap_text
len-cap_text text limit = elim (Bool-cases (leb (len (strip text)) limit)) [
  | inl fits ↦ (
    λ h. rw (cap_text, fits) refl,
    λ h. rw (cap_text, fits) (leb→le (len (strip text)) limit fits),
  )
  | inr long ↦ (
    λ h. absurd (ground arith),
    λ h.
        let kept : String = first_chars (limit - len (truncation_mark limit)) (strip text) in
        rw (cap_text, long)
          (omega (
            arith,
            len-append (rstrip kept) (truncation_mark limit),
            len-rstrip kept,
            len-first_chars-le (limit - len (truncation_mark limit)) (strip text),
            h,
          )),
  )
]
