-- ===== src/ClangFormat/Trouble.antt =====
-- `print_trouble` of tools/run-clang-format.py, and the messages that it is called with.
pub mod Plain
use for_montee.Base.{
  ℕ, zero, suc, ◌+◌, ◌/◌, ◌%◌, ltb, ℤ, pos, negsuc, Bool, true, false, List, [], ◌∷◌, ◌++◌, Text,
  codes, if◌then◌else◌,
}
use for_montee.ClangFormat.Colors.{bold_red}
use for_montee.ClangFormat.Diff.{Message, unreadable, not_started, non_zero}

-- The last digits of a number; as many as the number are enough.
digits : ℕ → ℕ → Text
digits zero n = []
digits (suc fuel) n =
    let rest = digits fuel (n / 10) in (if ltb n 10 then [] else rest) ++ ((b'0' + n % 10) ∷ [])

-- `str` of a number
unfoldable pub decimal : ℤ → Text
unfolding digits
decimal (pos n) = digits (suc n) n
decimal (negsuc n) = b'-' ∷ digits (suc (suc n)) (suc n)

-- What `main` needs to print: the options, the name of the program, `subprocess.list2cmdline`, and
-- the text of the traceback of an unexpected error.
pub record Printing : Type 0 where
  pub prog : Text
  pub quiet : Bool
  pub colored_stdout : Bool
  pub colored_stderr : Bool
  pub list2cmdline : List Text → Text
  pub formatted_traceback : (file message : Text) → Text

-- The line that is written to the standard error output.
unfoldable pub print_trouble : Text → Text → Bool → Text
unfolding bold_red
print_trouble prog message use_colors =
    let error_text = if use_colors then bold_red (codes "error:") else codes "error:" in
    prog ++ (codes ": " ++ (error_text ++ (codes " " ++ (message ++ codes "\n"))))

-- `"Command '{}' failed to start: {}".format(...)`
unfoldable pub failed_to_start : Printing → List Text → Text → Text
failed_to_start p command exc =
    codes "Command '" ++ (p.list2cmdline command ++ (codes "' failed to start: " ++ exc))

-- `str(e)` of a `DiffError`
unfoldable pub message_text : Printing → Message → Text
unfolding failed_to_start decimal
message_text p (unreadable exc) = exc
message_text p (not_started command exc) = failed_to_start p command exc
message_text p (non_zero command returncode) =
    codes "Command '"
    ++ (p.list2cmdline command ++ (codes "' returned non-zero exit status " ++ decimal returncode))

-- `'{}: {}: {}'.format(file, e.__class__.__name__, e)`
abbrev pub unexpected_text : Text → Text → Text
unexpected_text file message = file ++ (codes ": " ++ message)
