-- ===== src/ClangFormat/Excludes.antt =====
-- `excludes_from_file` of tools/run-clang-format.py.
pub mod Lines
use for_montee.Base.{
  ℕ, ◌==◌, Bool, true, false, List, [], ◌∷◌, Text, codes, starts_with, is_empty, rstrip_space,
  if◌then◌else◌,
}

unfoldable pub is_comment : Text → Bool
unfolding starts_with
is_comment line = starts_with line (codes "#")

-- The body of the `for` loop.
unfoldable pub exclude_line : Text → List Text → List Text
unfolding is_comment rstrip_space
exclude_line line excludes =
    let pattern = rstrip_space line in
    if is_comment line then excludes else if is_empty pattern then excludes else pattern ∷ excludes

-- The loop over the lines of the file, each with its newline.
unfoldable pub exclude_lines : List Text → List Text
unfolding exclude_line
exclude_lines [] = []
exclude_lines (line ∷ lines) = exclude_line line (exclude_lines lines)

-- What `io.open` and the reading of the lines come to.
pub data Reading : Type 0 where
  opened : List Text → Reading
  -- `ENOENT`
  missing : Reading
  -- any other `EnvironmentError`, with its number
  failed : ℕ → Reading

pub data Excluded : Type 0 where
  excludes : List Text → Excluded
  raised : ℕ → Excluded

unfoldable pub excludes_from_file : Reading → Excluded
unfolding exclude_lines
excludes_from_file (opened lines) = excludes (exclude_lines lines)
excludes_from_file missing = excludes []
excludes_from_file (failed errno) = raised errno
