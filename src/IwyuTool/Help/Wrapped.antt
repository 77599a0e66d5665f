-- ===== src/IwyuTool/Help/Wrapped.antt =====
-- The help of tools/iwyu_tool.py where the usage takes several lines.
use for_montee.Base.{
  ◌≡◌, refl, ◌∙◌, List, [], ◌∷◌, ◌++◌, some, Text, codes, join, All, IsSpaces, rstrip_space,
  rstrip_space-append, with_newlines, IsOneLine, split_lines-with_newlines,
}
use for_montee.IwyuTool.Help.{format_usage, with_usage, custom_help}

abbrev suffix : Text
suffix = codes " -- [<IWYU args>]"

rstrip_space-suffix : (s : Text) → rstrip_space (s ++ suffix) ≡ s ++ suffix
unfolding rstrip_space
rstrip_space-suffix [] = refl
rstrip_space-suffix (c ∷ []) = refl
rstrip_space-suffix (c ∷ d ∷ s) = rw (rstrip_space, rstrip_space-suffix (d ∷ s)) refl

rstrip_space-format_usage :
    (linesep original_usage : Text)
    → IsSpaces linesep
    → rstrip_space (format_usage linesep original_usage) ≡ rstrip_space original_usage ++ suffix
unfolding format_usage
rstrip_space-format_usage linesep original_usage spaces =
    rstrip_space-append (rstrip_space original_usage ++ suffix) linesep spaces
    ∙ rstrip_space-suffix (rstrip_space original_usage)

-- Where `argparse` writes the usage in lines and begins the help with these lines, the help of
-- `custom_help` has the whole usage with the addition for the arguments of include-what-you-use,
-- and then again all lines of the usage but the first, before the rest of the help.
pub custom_help-wrapped :
    (linesep first : Text) (more rest : List Text)
    → IsSpaces linesep
    → All IsOneLine (first ∷ (more ++ rest))
    → custom_help linesep (with_newlines (first ∷ more)) (with_newlines (first ∷ (more ++ rest)))
      ≡ some (
          join linesep (
            (rstrip_space (with_newlines (first ∷ more)) ++ codes " -- [<IWYU args>]")
            ∷ (more ++ rest))
          ++ linesep)
unfolding custom_help with_usage
custom_help-wrapped linesep first more rest spaces one_line =
    rw
      (
        split_lines-with_newlines (first ∷ (more ++ rest)) one_line,
        rstrip_space-format_usage linesep (with_newlines (first ∷ more)) spaces,
      )
      refl
