-- ===== src/ClangFormat/Program.antt =====
-- `main` of tools/run-clang-format.py from the parsed arguments to the exit status.
pub mod Exit
pub mod Plain
pub mod InTurn
use for_montee.Base.{
  ℕ, ℤ, pos, negsuc, Bool, true, false, List, [], ◌∷◌, ◌++◌, map, flatten, Option, none, some, Text,
  codes, length, if◌then◌else◌,
}
use for_montee.ClangFormat.Excludes.{Reading, Excluded, excludes, raised, excludes_from_file}
use for_montee.ClangFormat.ListFiles.{Dir, list_files}
use for_montee.ClangFormat.Diff.{
  Args, Tools, Outcome, done, diff_error, unexpected_error, run_clang_format_diff_wrapper,
  dry_run_output,
}
use for_montee.ClangFormat.Trouble.{Printing, print_trouble, failed_to_start}
use for_montee.ClangFormat.Main.{
  ExitStatus, success, trouble, code, Loop, initial, consume, Jobs, direct, pool, value_error,
  plan_jobs,
}

-- What `subprocess.check_call` of `clang-format --version` comes to.
pub data Checked : Type 0 where
  works : Checked
  -- `CalledProcessError`
  called_process_error : Text → Checked
  -- `OSError`
  os_error : Text → Checked

-- `--color`
pub data Color : Type 0 where
  auto always never : Color

-- The rest of the command line.
pub record Options : Type 0 where
  pub args : Args
  -- `args.extensions.split(',')`
  pub extensions : List Text
  pub recursive : Bool
  pub quiet : Bool
  pub exclude : List Text
  pub files : List Text
  pub j : ℤ
  pub color : Color

-- The system. `prog` is `parser.prog`, and `formatted_traceback` is the text of a traceback.
-- `arrival` is the order in which `imap_unordered` gives the results of a pool, and `pool_output`
-- what reaches the standard output of the lines that its processes print.
pub record Host : Type 0 where
  pub tools : Tools
  pub check_call : List Text → Checked
  pub ignore_file : Reading
  pub read_dir : Text → Option Dir
  pub cpu_count : ℕ
  pub stdout_isatty : Bool
  pub stderr_isatty : Bool
  pub prog : Text
  pub list2cmdline : List Text → Text
  pub formatted_traceback : (file message : Text) → Text
  pub arrival : ℕ → List Outcome → List Outcome
  pub pool_output : ℕ → List Text → List Text

-- How `main` ends: with the commands that a dry run prints and what the loop over the results
-- leaves, with the trouble of the first command, which it prints, without a value, or by an
-- exception that nothing catches.
pub data Ending : Type 0 where
  loop_done : (printed : List Text) → Loop → Ending
  unusable : Text → Ending
  nothing_to_do : Ending
  escaped : Ending

-- The status of the process, which is 1 for an exception that nothing catches.
abbrev pub status : Ending → ℕ
status (loop_done printed s) = code s.retcode
status (unusable message) = code trouble
status nothing_to_do = 0
status escaped = 1

-- `colored_stdout` or `colored_stderr`
abbrev pub colored : Color → Bool → Bool
colored auto isatty = isatty
colored always isatty = true
colored never isatty = false

-- No exception.
abbrev pub is_done : Outcome → Bool
is_done (done outs errs) = true
is_done (diff_error message errs) = false
is_done (unexpected_error file message) = false

module _ (h : Host) (o : Options) where
  abbrev pub printing : Printing
  printing = record {
    prog = h.prog;
    quiet = o.quiet;
    colored_stdout = colored o.color h.stdout_isatty;
    colored_stderr = colored o.color h.stderr_isatty;
    list2cmdline = h.list2cmdline;
    formatted_traceback = h.formatted_traceback;
  }

  unfoldable pub outcomes : List Text → List Outcome
  unfolding run_clang_format_diff_wrapper
  outcomes files = map (run_clang_format_diff_wrapper h.tools o.args) files

  -- The files that the generator of one job comes to: an exception that leaves it finishes it.
  unfoldable pub evaluated : List Text → List Text
  unfolding run_clang_format_diff_wrapper
  evaluated [] = []
  evaluated (file ∷ files) =
      let rest = evaluated files in
      if is_done (run_clang_format_diff_wrapper h.tools o.args file) then file ∷ rest else file ∷ []

  -- The commands that a dry run prints.
  unfoldable pub prints : List Text → List Text
  unfolding dry_run_output
  prints files = flatten (map (dry_run_output h.tools o.args) files)

  abbrev pub loop_over : (printed : List Text) → List Outcome → Ending
  loop_over printed os = loop_done printed (consume printing initial os)

  unfoldable pub with_jobs : Jobs → List Text → Ending
  unfolding outcomes consume evaluated prints
  with_jobs direct files = loop_over (prints (evaluated files)) (outcomes (evaluated files))
  with_jobs (pool n) files =
      loop_over (h.pool_output n (prints files)) (h.arrival n (outcomes files))
  with_jobs value_error files = escaped

  unfoldable pub with_files : List Text → Ending
  unfolding with_jobs plan_jobs
  with_files [] = nothing_to_do
  with_files (file ∷ files) =
      with_jobs (plan_jobs o.j h.cpu_count (length (file ∷ files))) (file ∷ files)

  unfoldable pub with_excludes : Excluded → Ending
  unfolding with_files list_files
  with_excludes (excludes patterns) =
      with_files (list_files o.extensions (patterns ++ o.exclude) o.recursive h.read_dir o.files)
  with_excludes (raised errno) = escaped

  abbrev pub version_invocation : List Text
  version_invocation = o.args.clang_format_executable ∷ codes "--version" ∷ []

  -- The trouble of the first command.
  unfoldable pub unusable_with : Text → Ending
  unfolding print_trouble
  unusable_with message = unusable (print_trouble h.prog message printing.colored_stderr)

  unfoldable pub main : Ending
  unfolding with_excludes excludes_from_file unusable_with failed_to_start
  main = elim (h.check_call version_invocation) [
    | works ↦ with_excludes (excludes_from_file h.ignore_file)
    | called_process_error message ↦ unusable_with message
    | os_error exc ↦ unusable_with (failed_to_start printing version_invocation exc)
  ]
