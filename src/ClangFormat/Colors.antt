-- ===== src/ClangFormat/Colors.antt =====
-- `colorize`, `bold_red` and `print_diff` of tools/run-clang-format.py.
pub mod Plain
use for_montee.Base.{
  ℕ, Bool, true, false, List, [], ◌∷◌, ◌++◌, map, Text, codes, text_eq, contains, starts_with, take,
  if◌then◌else◌,
}

-- The escape character.
abbrev pub esc : ℕ
esc = 0x1b

-- `'\x1b[1m'` and its like, for the text between the bracket and the `m`.
abbrev pub sequence : Text → Text
sequence n = esc ∷ b'[' ∷ (n ++ (b'm' ∷ []))

abbrev pub wrapped : Text → Text → Text
wrapped n s = sequence n ++ (s ++ sequence (codes "0"))

abbrev pub bold : Text → Text
bold s = wrapped (codes "1") s

abbrev pub cyan : Text → Text
cyan s = wrapped (codes "36") s

abbrev pub green : Text → Text
green s = wrapped (codes "32") s

abbrev pub red : Text → Text
red s = wrapped (codes "31") s

unfoldable pub bold_red : Text → Text
bold_red s = sequence (codes "1") ++ (sequence (codes "31") ++ (s ++ sequence (codes "0")))

abbrev headers : List Text
headers = codes "--- " ∷ codes "+++ " ∷ []

unfoldable pub colorize_line : Text → Text
unfolding contains starts_with
colorize_line line =
    if contains headers (take 4 line)
    then bold line
    else if starts_with line (codes "@@ ")
    then cyan line
    else if starts_with line (codes "+")
    then green line
    else if starts_with line (codes "-")
    then red line
    else line

unfoldable pub colorize : List Text → List Text
unfolding colorize_line
colorize diff_lines = map colorize_line diff_lines

-- The lines that `print_diff` writes to the standard output.
unfoldable pub print_diff : List Text → Bool → List Text
unfolding colorize
print_diff diff_lines use_color = if use_color then colorize diff_lines else diff_lines
