-- ===== src/IwyuTool/Formatter/Blocks.antt =====
-- The blocks of a report of include-what-you-use, and what `clang_formatter` makes of them.
use for_montee.Base.{◌≡◌, List, [], ◌∷◌, ◌++◌, some, Text, codes, All, map}
use for_montee.IwyuTool.Regex.{match}
use for_montee.IwyuTool.Regex.Suffix.{NoNewline}
use for_montee.IwyuTool.Formatter.{
  lines_re, State, general, adding, removing, full_list, other, classify, add_message,
  correct_message, superfluous, Formatting,
}
use for_montee.IwyuTool.Formatter.Headers.{correct_line, add_header, remove_header}

-- A line `- INCLUDE  // lines FIRST-LAST`.
pub record Removal : Type 0 where
  pub line : Text
  pub include : Text
  pub line_no : Text

-- What include-what-you-use writes of a file.
pub data Block : Type 0 where
  note : Text → Block
  additions : Text → List Text → Block
  removals : Text → List Removal → Block
  full : Text → List Text → Block

abbrev pub full_header : Text → Text
full_header path = codes "The full include-list for " ++ (path ++ codes ":")

abbrev pub render : Block → List Text
render (note path) = correct_line path ∷ []
render (additions path lines) = add_header path ∷ (lines ++ ([] ∷ []))
render (removals path rs) = remove_header path ∷ (map (λ r. r.line) rs ++ ([] ∷ []))
render (full path lines) = full_header path ∷ (lines ++ (codes "---" ∷ []))

-- The messages that are wanted for a block.
abbrev pub messages : Block → List Text
messages (note path) = correct_message path ∷ []
messages (additions path lines) = map (add_message path) lines
messages (removals path rs) = map (λ r. superfluous path r.line_no r.include) rs
messages (full path lines) = []

abbrev pub IsPlain : Text → Type 0
IsPlain line = classify line ≡ other

abbrev pub IsRemoval : Removal → Type 0
IsRemoval r = IsPlain r.line × (match lines_re r.line ≡ some (r.include ∷ r.line_no ∷ []))

-- The path holds no newline, and no line of the body reads as a header, as an end mark or as empty.
abbrev pub IsReadable : Block → Type 0
IsReadable (note path) = NoNewline path
IsReadable (additions path lines) = NoNewline path × All IsPlain lines
IsReadable (removals path rs) = NoNewline path × All IsRemoval rs
IsReadable (full path lines) = (classify (full_header path) ≡ full_list path) × All IsPlain lines

abbrev pub at_state : State → List Text → Formatting
at_state s out = record { state = s; formatted = out }

-- The state in which a block leaves the formatter.
abbrev pub state_after : State → Block → State
state_after s (note path) = s
state_after s (additions path lines) = adding path
state_after s (removals path rs) = removing path
state_after s (full path lines) = general

abbrev pub states_after : State → List Block → State
states_after s [] = s
states_after s (b ∷ bs) = states_after (state_after s b) bs
