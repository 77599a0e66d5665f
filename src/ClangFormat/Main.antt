-- ===== src/ClangFormat/Main.antt =====
-- `main` of tools/run-clang-format.py behind the parsing of its arguments: the number of jobs, the
-- loop over the results, and the exit status.
pub mod Status
pub mod Plain
use for_montee.Base.{
  is_zero_ℤ, ℕ, zero, suc, ◌≤◌, ◌==◌, leb, ℤ, pos, negsuc, Bool, true, false, not, List, [], ◌∷◌,
  ◌++◌, map, Option, none, some, Text, length, is_empty, if◌then◌else◌,
}
use for_montee.ClangFormat.Colors.{print_diff}
use for_montee.ClangFormat.Trouble.{Printing, print_trouble, message_text, unexpected_text}
use for_montee.ClangFormat.Diff.{Outcome, done, diff_error, unexpected_error}

-- `ExitStatus`
pub data ExitStatus : Type 0 where
  success diff trouble : ExitStatus

abbrev pub code : ExitStatus → ℕ
code success = 0
code diff = 1
code trouble = 2

-- The variables of the loop, what it has written, piece by piece, and if it was left by `break`.
pub record Loop : Type 0 where
  pub retcode : ExitStatus
  pub stdout : List Text
  pub stderr : List Text
  pub terminated : Bool

abbrev pub initial : Loop
initial = record { retcode = success; stdout = []; stderr = []; terminated = false }

-- `if retcode == ExitStatus.SUCCESS: retcode = ExitStatus.DIFF`
abbrev pub raise_diff : ExitStatus → ExitStatus
raise_diff success = diff
raise_diff r = r

module _ (p : Printing) where
  -- The `else` of the `try`: the lines of a file that was handled.
  unfoldable pub on_done : Loop → List Text → List Text → Loop
  on_done s outs errs =
      let s' = record s { stderr = s.stderr ++ errs } in
      if is_empty outs then s' else record s' {
        retcode = raise_diff s.retcode;
        stdout = if p.quiet then s.stdout else s.stdout ++ print_diff outs p.colored_stdout;
      }

  unfoldable pub on_result : Loop → Outcome → Loop
  unfolding on_done print_trouble message_text
  on_result s (done outs errs) = on_done s outs errs
  on_result s (diff_error message errs) = record s {
    retcode = trouble;
    stderr = s.stderr ++ (print_trouble p.prog (message_text p message) p.colored_stderr ∷ errs);
  }
  on_result s (unexpected_error file message) = record s {
    retcode = trouble;
    stderr =
        s.stderr
        ++ (print_trouble p.prog (unexpected_text file message) p.colored_stderr
            ∷ p.formatted_traceback file message
            ∷ []);
    terminated = true;
  }

  -- The loop over the results in the order in which they come; an unexpected error ends it.
  unfoldable pub consume : Loop → List Outcome → Loop
  unfolding on_result
  consume s [] = s
  consume s (o ∷ os) =
      let rest = consume (on_result s o) os in
      if (on_result s o).terminated then on_result s o else rest

-- What `njobs` comes to: one process after the other, a pool, or the `ValueError` of a pool with no
-- process. `cpu_count` is the number of processors.
pub data Jobs : Type 0 where
  direct : Jobs
  pool : ℕ → Jobs
  value_error : Jobs

abbrev pub jobs_of : ℤ → Jobs
jobs_of (pos zero) = value_error
jobs_of (pos (suc zero)) = direct
jobs_of (pos n) = pool n
jobs_of (negsuc n) = value_error

-- `min(len(files), njobs)`
abbrev pub min_count : ℕ → ℤ → ℤ
min_count n (pos m) = pos (if leb n m then n else m)
min_count n (negsuc m) = negsuc m

unfoldable pub plan_jobs : ℤ → ℕ → ℕ → Jobs
plan_jobs j cpu_count files =
    jobs_of (min_count files (if is_zero_ℤ j then pos (suc cpu_count) else j))
