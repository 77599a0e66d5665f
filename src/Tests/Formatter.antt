-- ===== src/Tests/Formatter.antt =====
-- `clang_formatter` of tools/iwyu_tool.py on a report.
use for_montee.Base.{
  ◌≡◌, ◌==◌, true, refl, List, [], ◌∷◌, map, flatten, some, Text, codes, is_blank_line,
}
use for_montee.Tests.Checks.{none_of, none_of-All}
use for_montee.IwyuTool.Regex.{match}
use for_montee.IwyuTool.Regex.Suffix.{NoNewline}
use for_montee.IwyuTool.Formatter.{classify, general, format_lines, clang_formatter, start}
use for_montee.IwyuTool.Formatter.Blocks.{
  Block, note, additions, removals, full, render, messages, Removal, at_state, states_after,
}
use for_montee.IwyuTool.Formatter.Report.{format_lines-render}

plain_path : (path : Text) → none_of (λ c. c == b'\n') path ≡ true → NoNewline path
plain_path path e = none_of-All (λ c. c == b'\n') path e

abbrev removal : Removal
removal = record {
  line = codes "- #include <map>  // lines 12-12";
  include = codes "#include <map>";
  line_no = codes "12";
}

abbrev report : List Block
report =
    additions (codes "a.h") (codes "#include <set>" ∷ [])
    ∷ removals (codes "a.h") (removal ∷ [])
    ∷ full (codes "a.h") (codes "#include <set>" ∷ [])
    ∷ note (codes "b.cc")
    ∷ []

formatter_runs :
    clang_formatter
      (codes "\n")
      (codes "a.h should remove these lines:\n- #include <map>  // lines 12-13\n")
    ≡ some (codes "a.h:12:1: error: superfluous '#include <map>'")
unfolding clang_formatter
formatter_runs = refl

format_lines-render_example :
    format_lines start (flatten (map render report))
    ≡ some (at_state (states_after general report) (flatten (map messages report)))
unfolding classify match is_blank_line
format_lines-render_example = format_lines-render report general [] (
  (plain_path (codes "a.h") refl, (refl, tt)),
  (
    (plain_path (codes "a.h") refl, ((refl, refl), tt)),
    ((refl, (refl, tt)), (plain_path (codes "b.cc") refl, tt)),
  ),
)
