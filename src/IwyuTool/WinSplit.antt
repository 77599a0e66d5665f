-- ===== src/IwyuTool/WinSplit.antt =====
-- `win_split` of tools/iwyu_tool.py: a command line for Windows, split into its arguments.
pub mod Quote
pub mod Trailing
use for_montee.Base.{
  ℕ, ◌+◌, ◌/◌, ◌%◌, ◌==◌, Bool, true, false, not, ◌&&◌, ◌||◌, List, [], ◌∷◌, ◌++◌, Text, replicate,
  is_empty, if◌then◌else◌,
}

-- The variables of `split_iter`, and what it has yielded.
pub record SplitState : Type 0 where
  pub in_quotes : Bool
  pub backslashes : ℕ
  pub arg : Text
  pub yielded : List Text

abbrev pub initial : SplitState
initial = record { in_quotes = false; backslashes = 0; arg = []; yielded = [] }

abbrev pub slashes : ℕ → Text
slashes n = replicate n b'\\'

abbrev pub is_blank : ℕ → Bool
is_blank c = c == b' ' || c == b'\t'

-- `if arg: yield arg; arg = ''`
abbrev pub flush : SplitState → SplitState
flush s = if is_empty s.arg then s else record s { arg = []; yielded = s.yielded ++ (s.arg ∷ []) }

-- The branch at a double quotation mark.
unfoldable pub at_quote : SplitState → SplitState
at_quote s =
    let halved = s.arg ++ slashes (s.backslashes / 2) in
    if s.backslashes % 2 == 1
    then record s { arg = halved ++ (b'"' ∷ []); backslashes = 0 }
    else record s { arg = halved; in_quotes = not s.in_quotes; backslashes = 0 }

-- The body of the `for` loop.
unfoldable pub split_char : SplitState → ℕ → SplitState
unfolding at_quote
split_char s c =
    let flushed = s.arg ++ slashes s.backslashes in
    if c == b'\\'
    then record s { backslashes = s.backslashes + 1 }
    else if c == b'"'
    then at_quote s
    else if is_blank c && not s.in_quotes
    then record (flush (record s { arg = flushed })) { backslashes = 0 }
    else record s { arg = flushed ++ (c ∷ []); backslashes = 0 }

unfoldable pub split_chars : SplitState → Text → SplitState
unfolding split_char
split_chars s [] = s
split_chars s (c ∷ cs) = split_chars (split_char s c) cs

-- What stands behind the loop: the last argument is tested before its backslashes are added.
unfoldable pub split_end : SplitState → List Text
split_end s =
    if is_empty s.arg then s.yielded else s.yielded ++ ((s.arg ++ slashes s.backslashes) ∷ [])

unfoldable pub win_split : Text → List Text
unfolding split_chars split_end
win_split cmdline = split_end (split_chars initial cmdline)
