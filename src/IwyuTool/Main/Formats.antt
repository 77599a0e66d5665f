-- ===== src/IwyuTool/Main/Formats.antt =====
-- `main` of tools/iwyu_tool.py with each of the two formats.
use for_montee.Base.{
  ℕ, ◌<◌, ◌≡◌, ◌↔◌, inl, inr, refl, ap, ◌∙◌, ℤ, pos, Bool, true, false, ◌||◌, List, [], ◌∷◌, ◌++◌,
  none, some, Text, All, In, split_lines,
}
use for_montee.IwyuTool.Execute.{Run, Process, IsLawful, Invocation, launch_all, any_fails}
use for_montee.IwyuTool.Execute.Rounds.{
  processes, startable-all, any_raises, any_raises-true, raises,
}
use for_montee.IwyuTool.Execute.Ending.{future}
use for_montee.IwyuTool.Execute.ExitCode.{NotPositive}
use for_montee.IwyuTool.Regex.{match}
use for_montee.IwyuTool.Regex.Suffix.{NoNewline}
use for_montee.IwyuTool.Formatter.{lines_re, classify, other, clang_formatter, start, joined}
use for_montee.IwyuTool.Formatter.Headers.{remove_header}
use for_montee.IwyuTool.Formatter.Report.{HasNoHeader, format_lines_no_match}
use for_montee.IwyuTool.Database.{Entry, Failure, ok}
use for_montee.IwyuTool.Main.{
  Machine, Ended, returned, escaped, out_of_fuel, entries, iwyu, clang, formatters, database_path,
  prepared, main,
}
use for_montee.IwyuTool.Main.Exit.{Completes, main-Completes}

-- A report with a line to remove that does not name its lines: it stands behind the header of the
-- lines to remove, with no other header between.
abbrev pub IsUnreadable : Text → Type 0
IsUnreadable output =
    (pre : List Text) × (between : List Text) × (post : List Text) × (path : Text) × (line : Text)
    × (split_lines output ≡ pre ++ (remove_header path ∷ (between ++ (line ∷ post))))
    × All HasNoHeader between
    × NoNewline path
    × (classify line ≡ other)
    × (match lines_re line ≡ none)

clang_formatter-IsUnreadable :
    (linesep output : Text) → IsUnreadable output → clang_formatter linesep output ≡ none
unfolding clang_formatter
clang_formatter-IsUnreadable linesep output
      (pre, between, post, path, line, lines, keep, h, plain, missed) =
    rw lines (
      ap (joined linesep)
        (format_lines_no_match pre between post path line start h keep plain missed))

any_raises-In :
    (r : Run) (p : Process) (ps : List Process) (b : Bool)
    → In p ps
    → raises r p.output ≡ true
    → any_raises r b ps ≡ true
any_raises-In r p [] b m bad = absurd m
any_raises-In r p (q ∷ qs) b (inr m) bad = any_raises-In r p qs _ m bad
any_raises-In r p (q ∷ qs) b (inl same) bad =
    ap (λ c. any_raises r c qs)
      (or_true b (raises r q.output) (ap (λ (p : Process). raises r p.output) same ∙ bad))
    ∙ any_raises-true r qs
  where
    or_true : (b c : Bool) → c ≡ true → (b || c) ≡ true
    or_true true c h = refl
    or_true false c h = h

any_raises-iwyu :
    (r : Run) (linesep : Text) (ps : List Process)
    → r.formatter ≡ formatters linesep iwyu
    → any_raises r false ps ≡ false
unfolding formatters
any_raises-iwyu r linesep [] e = refl
any_raises-iwyu r linesep (p ∷ ps) e = rw (raises, e) (any_raises-iwyu r linesep ps e)

module _ (m : Machine) (r : Run) (jobs fuel c : ℕ) (cs path : Text)
    (source_files extra_args : List Text) (db : List Entry) (invocations : List Invocation)
    (read : m.load (database_path m path) ≡ entries db)
    (ready : prepared m (c ∷ cs) source_files extra_args db ≡ ok invocations) (L : IsLawful r.loads)
    (e : r.jobs ≡ pos jobs) (some_job : 0 < jobs) (enough : future r 0 invocations < fuel)
    (all_start : any_fails r 0 invocations ≡ false) where
  abbrev pub end_of_main : Ended
  end_of_main = main m r fuel (some (c ∷ cs)) path source_files extra_args

  completes : Completes r invocations end_of_main
  completes =
      let (fixed, fix, matches, done) =
        main-Completes m r jobs fuel c cs path source_files extra_args db invocations read ready L e
          some_job enough in
      done

  escapes :
      (end_of : Ended)
      → Completes r invocations end_of
      → any_fails r 0 invocations ≡ false
      → any_raises r false (processes r 0 invocations) ≡ true
      → end_of ≡ escaped Failure.attribute_error
  escapes (returned z) (none_raises, none_fails, zero) starts bad = cc
  escapes (escaped f) (inl (same, one_raises)) starts bad = ap escaped same
  escapes (escaped f) (inr (same, one_fails)) starts bad = cc
  escapes out_of_fuel done starts bad = absurd done

  returns :
      (end_of : Ended)
      → Completes r invocations end_of
      → any_fails r 0 invocations ≡ false
      → any_raises r false (processes r 0 invocations) ≡ false
      → (z : ℤ) × (end_of ≡ returned z)
        × ((z ≡ pos 0) ↔ All (λ p. NotPositive p.returncode) (launch_all r 0 invocations))
  returns (returned z) (none_raises, none_fails, zero) starts fine = (z, refl, zero)
  returns (escaped f) (inl (same, one_raises)) starts fine = cc
  returns (escaped f) (inr (same, one_fails)) starts fine = cc
  returns out_of_fuel done starts fine = absurd done

  -- Where there is an executable, the database is read and no entry raises an exception, the loads
  -- are lawful, `--jobs` is at least 1, there is fuel for the polls and every process can be
  -- started: with `--output-format clang`, one report of a process in which some line behind the
  -- header of the lines to remove does not have the numbers of its lines makes `main` end by an
  -- `AttributeError`, whatever the other processes print and return.
  pub main-IsUnreadable :
      (linesep : Text) (p : Process)
      → r.formatter ≡ formatters linesep clang
      → In p (launch_all r 0 invocations)
      → IsUnreadable p.output
      → end_of_main ≡ escaped Failure.attribute_error
  unfolding formatters
  main-IsUnreadable linesep p format met bad = escapes end_of_main completes all_start (
      any_raises-In r p (processes r 0 invocations) false
        (rw (startable-all r invocations 0 all_start) met)
        (rw (raises, format, clang_formatter-IsUnreadable linesep p.output bad) refl))

  -- Where there is an executable, the database is read and no entry raises an exception, the loads
  -- are lawful, `--jobs` is at least 1, there is fuel for the polls and every process can be
  -- started: with the default format `main` returns an exit code, which is 0 exactly when no
  -- process has a return code above 0.
  pub main_iwyu-NotPositive :
      (linesep : Text)
      → r.formatter ≡ formatters linesep iwyu
      → (z : ℤ) × (end_of_main ≡ returned z)
        × ((z ≡ pos 0) ↔ All (λ p. NotPositive p.returncode) (launch_all r 0 invocations))
  main_iwyu-NotPositive linesep format =
      returns end_of_main completes all_start
        (any_raises-iwyu r linesep (processes r 0 invocations) format)
