-- ===== src/IwyuTool/Formatter.antt =====
-- `clang_formatter` of tools/iwyu_tool.py: the report of include-what-you-use as compiler messages.
pub mod Headers
pub mod Blocks
pub mod Report
use for_montee.Base.{
  ℕ, Bool, true, false, List, [], ◌∷◌, ◌++◌, Option, none, some, Text, codes, join, is_blank_line,
  split_lines, if◌then◌else◌,
}
use for_montee.IwyuTool.Regex.{Piece, lit, lazy, greedy, spaces, number, digits, end, match}

abbrev pub correct_re : List Piece
correct_re = lit (codes "(") ∷ lazy ∷ lit (codes " has correct #includes/fwd-decls)") ∷ end ∷ []

abbrev pub should_add_re : List Piece
should_add_re = lazy ∷ lit (codes " should add these lines:") ∷ end ∷ []

abbrev pub add_re : List Piece
add_re = lazy ∷ spaces ∷ lit (codes "// ") ∷ greedy ∷ end ∷ []

abbrev pub should_remove_re : List Piece
should_remove_re = lazy ∷ lit (codes " should remove these lines:") ∷ end ∷ []

abbrev pub full_list_re : List Piece
full_list_re = lit (codes "The full include-list for ") ∷ lazy ∷ lit (codes ":") ∷ end ∷ []

abbrev pub end_re : List Piece
end_re = lit (codes "---") ∷ end ∷ []

abbrev pub lines_re : List Piece
lines_re =
    lit (codes "- ")
    ∷ lazy
    ∷ lit (codes "  // lines ")
    ∷ number
    ∷ lit (codes "-")
    ∷ digits
    ∷ end
    ∷ []

-- The mode with the path that the last header named.
pub data State : Type 0 where
  general : State
  adding removing listing : Text → State

-- What the tests of the loop make of a line, in their order.
pub data Kind : Type 0 where
  correct should_add should_remove full_list : Text → Kind
  end_mark blank other : Kind

-- `match.group(1)`
abbrev pub group_1 : Option (List Text) → Option Text
group_1 (some (g ∷ gs)) = some g
group_1 _ = none

abbrev pub or_kind : Option Text → (Text → Kind) → Kind → Kind
or_kind (some path) kind next = kind path
or_kind none kind next = next

abbrev is_match : Option (List Text) → Bool
is_match (some gs) = true
is_match none = false

unfoldable pub classify : Text → Kind
classify line = or_kind (group_1 (match correct_re line)) correct (
    or_kind (group_1 (match should_add_re line)) should_add (
      or_kind (group_1 (match should_remove_re line)) should_remove (
        or_kind (group_1 (match full_list_re line)) full_list (
          if is_match (match end_re line)
          then end_mark
          else if is_blank_line line
          then blank
          else other))))

abbrev pub correct_message : Text → Text
correct_message path = path ++ codes ":1:1: note: #includes/fwd-decls are correct"

unfoldable pub add_message : Text → Text → Text
add_message path line = elim (match add_re line) [
  | some (include ∷ reason ∷ []) ↦
      path ++ (codes ":1:1: error: add '" ++ (include ++ (codes "' (" ++ (reason ++ codes ")"))))
  | _ ↦ path ++ (codes ":1:1: error: add '" ++ (line ++ codes "'"))
]

abbrev pub superfluous : Text → Text → Text → Text
superfluous path line_no include =
    path ++ (codes ":" ++ (line_no ++ (codes ":1: error: superfluous '" ++ (include ++ codes "'"))))

-- Where the line does not match, `match.group(1)` is an attribute of `None`: an exception.
unfoldable pub remove_message : Text → Text → Option Text
remove_message path line = elim (match lines_re line) [
  | some (include ∷ line_no ∷ []) ↦ some (superfluous path line_no include)
  | _ ↦ none
]

pub record Formatting : Type 0 where
  pub state : State
  pub formatted : List Text

abbrev append : Formatting → Text → Formatting
append f message = record f { formatted = f.formatted ++ (message ∷ []) }

abbrev append_if : Formatting → Option Text → Option Formatting
append_if f none = none
append_if f (some message) = some (append f message)

-- A line that is no header, in the mode of the last header.
unfoldable pub format_other : State → Formatting → Text → Option Formatting
format_other general f line = some (append f line)
format_other (adding path) f line = some (append f (add_message path line))
format_other (removing path) f line = append_if f (remove_message path line)
format_other (listing path) f line = some f

unfoldable pub format_kind : Kind → Formatting → Text → Option Formatting
unfolding format_other
format_kind (correct path) f line = some (append f (correct_message path))
format_kind (should_add path) f line = some (record f { state = adding path })
format_kind (should_remove path) f line = some (record f { state = removing path })
format_kind (full_list path) f line = some (record f { state = listing path })
format_kind end_mark f line = some (record f { state = general })
format_kind blank f line = some f
format_kind other f line = format_other f.state f line

abbrev pub bind_formatting :
    Option Formatting → (Formatting → Option Formatting) → Option Formatting
bind_formatting none k = none
bind_formatting (some f) k = k f

-- The `for` loop; none where a line raises an exception.
unfoldable pub format_lines : Formatting → List Text → Option Formatting
unfolding format_kind
format_lines f [] = some f
format_lines f (line ∷ lines) =
    bind_formatting (format_kind (classify line) f line) (λ f'. format_lines f' lines)

abbrev pub start : Formatting
start = record { state = general; formatted = [] }

abbrev pub joined : Text → Option Formatting → Option Text
joined linesep none = none
joined linesep (some f) = some (join linesep f.formatted)

-- `linesep` is `os.linesep`.
unfoldable pub clang_formatter : Text → Text → Option Text
unfolding split_lines format_lines classify match is_blank_line add_message remove_message join
clang_formatter linesep output = joined linesep (format_lines start (split_lines output))
