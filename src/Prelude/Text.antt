-- ===== src/Prelude/Text.antt =====
-- Optional texts and their truth value, as Python reads them.
use Prim.Native.String.{String}
use mathlib.Core.Bool.{Bool, true, false, not}
use mathlib.Core.Option.{Option, none, some}
use text.Mathlib.Text.{◌==◌}

-- `bool(s)` for a text that may be missing: `None` and "" are false.
abbrev pub truthy : Option String → Bool
truthy none = false
truthy (some s) = not (s == "")

-- `s or ""`.
abbrev pub or_empty : Option String → String
or_empty none = ""
or_empty (some s) = s

-- `a == b` for texts that may be missing.
abbrev pub same_text : Option String → Option String → Bool
same_text none none = true
same_text none (some b) = false
same_text (some a) none = false
same_text (some a) (some b) = a == b
