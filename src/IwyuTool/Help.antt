-- ===== src/IwyuTool/Help.antt =====
-- The usage and the help of tools/iwyu_tool.py: `customize_usage` and `customize_help` of
-- `_bootstrap`. The texts that `argparse` writes itself are parameters.
pub mod Wrapped
use for_montee.Base.{
  List, [], ◌∷◌, ◌++◌, Option, none, some, Text, codes, join, split_lines, rstrip_space,
}

-- The `format_usage` of `customize_usage`
unfoldable pub format_usage : (linesep original_usage : Text) → Text
unfolding rstrip_space
format_usage linesep original_usage =
    rstrip_space original_usage ++ codes " -- [<IWYU args>]" ++ linesep

-- `helplines[0] = parser.format_usage().rstrip()`, with none for the `IndexError`
unfoldable pub with_usage : Text → List Text → Option (List Text)
unfolding rstrip_space
with_usage usage [] = none
with_usage usage (line ∷ helplines) = some (rstrip_space usage ∷ helplines)

abbrev joined_lines : Text → Option (List Text) → Option Text
joined_lines linesep none = none
joined_lines linesep (some helplines) = some (join linesep helplines ++ linesep)

unfoldable pub custom_help : (linesep original_usage helpmsg : Text) → Option Text
unfolding with_usage format_usage split_lines join
custom_help linesep original_usage helpmsg =
    joined_lines linesep (with_usage (format_usage linesep original_usage) (split_lines helpmsg))
