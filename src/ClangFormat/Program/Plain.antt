-- ===== src/ClangFormat/Program/Plain.antt =====
-- `main` of tools/run-clang-format.py with colours and without.
use for_montee.Base.{
  ◌≡◌, refl, ap, ◌∙◌, sym, false, List, [], ◌∷◌, map, Text, All, All-perm, All-prop, ◌==◌,
}
use for_montee.ClangFormat.Colors.{esc}
use for_montee.ClangFormat.Colors.Plain.{plain, NoEscape}
use for_montee.ClangFormat.Diff.{
  Outcome, done, diff_error, unexpected_error, run_clang_format_diff_wrapper,
}
use for_montee.ClangFormat.Trouble.{failed_to_start}
use for_montee.ClangFormat.Trouble.Plain.{plain-print_trouble}
use for_montee.ClangFormat.Main.{Loop, initial, Jobs, direct, pool, value_error}
use for_montee.ClangFormat.Main.Plain.{IsClear, Alike, consume-Alike}
use for_montee.ClangFormat.Excludes.{Excluded, excludes, raised, excludes_from_file}
use for_montee.ClangFormat.Program.Exit.{IsArrival}
use for_montee.ClangFormat.Program.{
  never, Options, Host, Checked, works, called_process_error, os_error, Ending, loop_done, unusable,
  nothing_to_do, escaped, status, printing, version_invocation, unusable_with, outcomes, evaluated,
  prints, loop_over, with_jobs, with_files, with_excludes, main,
}

-- What has been written, without its escape sequences.
abbrev plain_loop : Loop → Loop
plain_loop s = record s { stdout = map plain s.stdout; stderr = map plain s.stderr }

abbrev pub plainly : Ending → Ending
plainly (loop_done printed s) = loop_done printed (plain_loop s)
plainly (unusable line) = unusable (plain line)
plainly nothing_to_do = nothing_to_do
plainly escaped = escaped

plain_loop-Alike : (s t : Loop) → Alike s t → plain_loop s ≡ plain_loop t
plain_loop-Alike s t a = λ i. record {
  retcode = a.retcodes i;
  stdout = a.stdouts i;
  stderr = a.stderrs i;
  terminated = a.ends i;
}

status-plainly : (e : Ending) → status (plainly e) ≡ status e
status-plainly (loop_done printed s) = refl
status-plainly (unusable line) = refl
status-plainly nothing_to_do = refl
status-plainly escaped = refl

-- `--color never`
abbrev pub without_color : Options → Options
without_color o = record o { color = never }

-- The diff of a file, as it is read and formatted, holds no escape character, whichever file it is.
abbrev pub AllClear : Host → Options → Type 0
AllClear h o = (file : Text) → IsClear (run_clang_format_diff_wrapper h.tools o.args file)

NoEscape-prop : (line : Text) → IsProp (NoEscape line)
NoEscape-prop = All-prop (λ c. (c == esc) ≡ false) (λ c. hlevel)

IsClear-prop : (o : Outcome) → IsProp (IsClear o)
IsClear-prop (done outs errs) = All-prop NoEscape NoEscape-prop outs
IsClear-prop (diff_error message errs) = λ x y. refl
IsClear-prop (unexpected_error file message) = λ x y. refl

module _ (h : Host) (o : Options) (d : AllClear h o) (clear_name : NoEscape h.prog)
    (fair : IsArrival h) where
  outcomes-IsClear : (files : List Text) → All IsClear (outcomes h o files)
  unfolding outcomes
  outcomes-IsClear [] = tt
  outcomes-IsClear (file ∷ files) = (d file, outcomes-IsClear files)

  loop_over-plainly :
      (printed : List Text) (os : List Outcome)
      → All IsClear os
      → plainly (loop_over h o printed os) ≡ plainly (loop_over h (without_color o) printed os)
  loop_over-plainly printed os clear = ap (loop_done printed) (
      plain_loop-Alike _ _ (
        consume-Alike (printing h o) clear_name os initial initial clear
          (record { stdouts = refl; stderrs = refl; retcodes = refl; ends = refl })))

  with_jobs-plainly :
      (jobs : Jobs) (files : List Text)
      → plainly (with_jobs h o jobs files) ≡ plainly (with_jobs h (without_color o) jobs files)
  unfolding with_jobs outcomes
  with_jobs-plainly direct files =
      loop_over-plainly (prints h o (evaluated h o files)) (outcomes h o (evaluated h o files))
        (outcomes-IsClear (evaluated h o files))
  with_jobs-plainly (pool n) files =
      let all =
        All-perm IsClear IsClear-prop (fair n (outcomes h o files)) (outcomes-IsClear files) in
      loop_over-plainly (h.pool_output n (prints h o files)) (h.arrival n (outcomes h o files)) all
  with_jobs-plainly value_error files = refl

  with_files-plainly :
      (files : List Text)
      → plainly (with_files h o files) ≡ plainly (with_files h (without_color o) files)
  unfolding with_files
  with_files-plainly [] = refl
  with_files-plainly (file ∷ files) = with_jobs-plainly _ (file ∷ files)

  with_excludes-plainly :
      (e : Excluded) → plainly (with_excludes h o e) ≡ plainly (with_excludes h (without_color o) e)
  unfolding with_excludes
  with_excludes-plainly (excludes patterns) = with_files-plainly _
  with_excludes-plainly (raised errno) = refl

  unusable_with-plainly :
      (message : Text)
      → plainly (unusable_with h o message) ≡ plainly (unusable_with h (without_color o) message)
  unfolding unusable_with
  unusable_with-plainly message = ap unusable (plain-print_trouble h.prog message _ clear_name)

  checked-plainly :
      (c : Checked)
      → h.check_call (version_invocation h o) ≡ c
      → plainly (main h o) ≡ plainly (main h (without_color o))
  unfolding main
  checked-plainly works e = rw (main, e) (with_excludes-plainly (excludes_from_file h.ignore_file))
  checked-plainly (called_process_error message) e = rw (main, e) (unusable_with-plainly message)
  checked-plainly (os_error exc) e =
      rw (main, e)
        (unusable_with-plainly (failed_to_start (printing h o) (version_invocation h o) exc))

  -- Where the diff of no file and not the name of the program hold an escape character, and a pool
  -- gives each result once in some order: whatever `--color` says, `main` ends as it does with
  -- `--color never`, with the same texts on both outputs, but for their escape sequences, and with
  -- the same status.
  pub main-without_color :
      (plainly (main h o) ≡ plainly (main h (without_color o)))
      × (status (main h o) ≡ status (main h (without_color o)))
  main-without_color =
      let same = checked-plainly (h.check_call (version_invocation h o)) refl in
      (
        same,
        sym (status-plainly (main h o))
            ∙ ap status same
            ∙ status-plainly (main h (without_color o)),
      )
