-- ===== src/ClangTidy/Fixes.antt =====
-- `merge_replacement_files` of tools/run-clang-tidy.py, and the end of its `main`.
pub mod ExitCode
pub mod Merge
use for_montee.Base.{ℕ, Bool, true, false, List, [], ◌∷◌, ◌++◌, Option, none, some, if◌then◌else◌}
use for_montee.ClangTidy.Workers.{Pool, return_code}

-- What `yaml.safe_load` makes of a replacement file: nothing, a dict with or without diagnostics,
-- or an exception, which another kind of content raises later too.
pub data Content (D : Type 0) : Type 0 where
  empty_content : Content D
  diagnostics : List D → Content D
  without_key : Content D
  broken : Content D

-- What is written to the file of all fixes.
pub data Merged (D : Type 0) : Type 0 where
  dumped : List D → Merged D
  emptied : Merged D
  raised : Merged D

abbrev extend : {D : Type 0} → List D → Option (List D) → Option (List D)
extend found none = none
extend found (some merged) = some (found ++ merged)

-- `merged`, from one file on; none where an exception is raised.
unfoldable pub merge_from : {D : Type 0} → List (Content D) → Option (List D)
merge_from [] = some []
merge_from (empty_content ∷ files) = merge_from files
merge_from (diagnostics found ∷ files) = extend found (merge_from files)
merge_from (without_key ∷ files) = extend [] (merge_from files)
merge_from (broken ∷ files) = none

abbrev pub written : {D : Type 0} → Option (List D) → Merged D
written none = raised
written (some []) = emptied
written (some (d ∷ ds)) = dumped (d ∷ ds)

unfoldable pub merge_replacement_files : {D : Type 0} → List (Content D) → Merged D
unfolding merge_from
merge_replacement_files files = written (merge_from files)

-- A part of the end that is asked for or not, and that may raise an exception.
pub data Attempted : Type 0 where
  skipped succeeded failed : Attempted

abbrev pub after : Attempted → ℕ → ℕ
after failed return_code = 1
after _ return_code = return_code

-- The exit code: that of the files, set to 1 where exporting or applying the fixes raises.
unfoldable pub exit_code : Attempted → Attempted → Pool → ℕ
unfolding return_code
exit_code export fix s = after fix (after export (return_code s))
