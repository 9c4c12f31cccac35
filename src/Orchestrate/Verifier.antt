-- ===== src/Orchestrate/Verifier.antt =====
-- The command that says whether the job is done: privibe/core/orchestrate/verifier.py.
use Prim.Native.String.{◌++◌}
use privibe.Prelude.{
  ℕ, ◌-◌, zero, suc, String, Bool, true, false, Option, none, some, leb, not, ◌&&◌, if◌then◌else◌,
}
use privibe.Prelude.Int.{ℤ, pos, negsuc}
use privibe.Str.{len, chars_from, decimal}

pub record VerifierResult : Type 0 where
  pub exit_code : ℤ
  pub output : String
  pub timed_out : Bool

abbrev is_zero : ℤ → Bool
is_zero (pos zero) = true
is_zero _ = false

unfoldable pub passed : VerifierResult → Bool
passed result = is_zero result.exit_code && not result.timed_out

unfoldable pub tail_chars : String → ℕ → String
tail_chars text limit =
    if leb (len text) limit
    then text
    else "[... first part cut, last part kept ...]\n" ++ chars_from (len text - limit) text

-- How the process ends: with its exit code and its output, or killed after the timeout.
pub data ProcessEnd : Type 0 where
  finished : Option ℤ → String → ProcessEnd
  killed : Option ℤ → ProcessEnd

-- `proc.returncode if proc.returncode is not None else -1`
abbrev exit_code_of : Option ℤ → ℤ
exit_code_of none = negsuc 0
exit_code_of (some code) = code

-- The result of `run_verifier`; `timeout_text` is the timeout in seconds, as `:g` writes it.
unfoldable pub verifier_result : String → ℕ → ProcessEnd → VerifierResult
unfolding tail_chars
verifier_result timeout_text output_chars (finished code text) = record {
  exit_code = exit_code_of code;
  output = tail_chars text output_chars;
  timed_out = false;
}
verifier_result timeout_text output_chars (killed code) = record {
  exit_code = exit_code_of code;
  output = "verifier timed out after " ++ (timeout_text ++ "s");
  timed_out = true;
}

unfoldable pub exit_text : ℤ → String
exit_text (pos n) = decimal n
exit_text (negsuc n) = "-" ++ decimal (suc n)
