-- ===== src/ClangFormat/Diff.antt =====
-- `run_clang_format_diff` and `run_clang_format_diff_wrapper` of tools/run-clang-format.py.
pub mod Formatted
use for_montee.Base.{
  is_zero_ℤ, ℕ, zero, suc, ℤ, pos, negsuc, Bool, true, false, List, [], ◌∷◌, ◌++◌, Option, none,
  some, Text, codes, join, is_empty, if◌then◌else◌,
}

-- The parsed command line, as far as this part reads it; `style` is empty where it is not given.
pub record Args : Type 0 where
  pub clang_format_executable : Text
  pub style : Text
  pub in_place : Bool
  pub dry_run : Bool

-- An operation of the system: it gives a value, or it raises the exception that the code catches
-- (`IOError`, `OSError`), with its text, or another one, with its class and its text.
pub data Attempt (A : Type 0) : Type 0 where
  gives : A → Attempt A
  fails : Text → Attempt A
  crashes : Text → Attempt A

-- What the process writes, line by line, and its return code.
pub record Finished : Type 0 where
  pub outs : List Text
  pub errs : List Text
  pub returncode : ℤ

-- The files, the processes and `difflib.unified_diff`, which gets the file's name for its header.
pub record Tools : Type 0 where
  pub read_lines : Text → Attempt (List Text)
  pub run : List Text → Attempt Finished
  pub unified_diff : Text → List Text → List Text → List Text

-- The message of a `DiffError`: the parts that its format string puts together.
pub data Message : Type 0 where
  unreadable : Text → Message
  not_started : List Text → Text → Message
  non_zero : List Text → ℤ → Message

-- `outs, errs`, or the exception that the wrapper lets out.
pub data Outcome : Type 0 where
  done : (outs errs : List Text) → Outcome
  diff_error : Message → (errs : List Text) → Outcome
  unexpected_error : (file message : Text) → Outcome

unfoldable pub invocation : Args → Text → List Text
invocation args file =
    let command =
      if args.in_place
      then args.clang_format_executable ∷ codes "-i" ∷ file ∷ []
      else args.clang_format_executable ∷ file ∷ [] in
    if is_empty args.style then command else command ++ (codes "--style" ∷ args.style ∷ [])

module _ (t : Tools) (args : Args) (file : Text) where
  -- `make_diff`
  abbrev pub make_diff : List Text → List Text → List Text
  make_diff original reformatted = t.unified_diff file original reformatted

  -- The process has ended.
  unfoldable pub after_process : List Text → Finished → Outcome
  after_process original p =
      if is_zero_ℤ p.returncode
      then (if args.in_place then done [] p.errs else done (make_diff original p.outs) p.errs)
      else diff_error (non_zero (invocation args file) p.returncode) p.errs

  -- The file is read.
  unfoldable pub after_read : List Text → Outcome
  unfolding after_process
  after_read original = if args.dry_run then done [] [] else elim (t.run (invocation args file)) [
    | gives p ↦ after_process original p
    | fails exc ↦ diff_error (not_started (invocation args file) exc) []
    | crashes exc ↦ unexpected_error file exc
  ]

  unfoldable pub run_clang_format_diff_wrapper : Outcome
  unfolding after_read
  run_clang_format_diff_wrapper = elim (t.read_lines file) [
    | gives original ↦ after_read original
    | fails exc ↦ diff_error (unreadable exc) []
    | crashes exc ↦ unexpected_error file exc
  ]

  -- What it prints to the standard output: the command of a dry run.
  unfoldable pub dry_run_output : List Text
  unfolding invocation join
  dry_run_output = elim (t.read_lines file) [
    | gives original ↦ if args.dry_run then join (codes " ") (invocation args file) ∷ [] else []
    | fails exc ↦ []
    | crashes exc ↦ []
  ]
