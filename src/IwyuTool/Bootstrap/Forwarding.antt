-- ===== src/IwyuTool/Bootstrap/Forwarding.antt =====
-- From the command line of tools/iwyu_tool.py to the commands that it runs.
use for_montee.Argparse.Written.{IsProper}
use for_montee.Base.{
  ℕ, ◌<◌, ◌≡◌, refl, ap, ◌∙◌, true, false, pos, List, [], ◌∷◌, ◌++◌, some, Text, text_eq,
  text_eq_comm, contains, Bool-cases, inl, inr,
}
use for_montee.IwyuTool.Execute.{IsLawful, Invocation}
use for_montee.IwyuTool.Execute.Ending.{future}
use for_montee.IwyuTool.Database.{
  Entry, ok, fixup_compilation_db, slice_compilation_db, partition_args,
}
use for_montee.IwyuTool.Database.Commands.{dashes}
use for_montee.IwyuTool.Main.{Ended, entries, database_path, prepared, main}
use for_montee.IwyuTool.Main.Exit.{Matches, Completes, main-Completes}
use for_montee.IwyuTool.Bootstrap.{Script, run_of, bootstrap}
use for_montee.IwyuTool.Options.{DriverArgs, iwyu_args}
use for_montee.IwyuTool.Options.RoundTrip.{written, iwyu_args-written, written-dashes}
use for_montee.Argparse.{parsed}
use for_montee.Argparse.Words.{all_words}

partition_args-dashes :
    (driver extra : List Text)
    → contains driver dashes ≡ false
    → partition_args (driver ++ (dashes ∷ extra)) ≡ (driver, extra)
unfolding partition_args contains
partition_args-dashes [] extra h = refl
partition_args-dashes (arg ∷ driver) extra h = elim (Bool-cases (text_eq dashes arg)) [
  | inl mark ↦ let found = rw mark at h in absurd (cc)
  | inr plain ↦
      let rest = partition_args-dashes driver extra (rw plain at h) in
      rw (text_eq_comm arg dashes ∙ plain, rest) refl
]

bootstrap-dashes :
    (s : Script) (fuel : ℕ) (prog : Text) (driver extra : List Text) (a : DriverArgs s.loads)
    → contains driver dashes ≡ false
    → iwyu_args s.loads s.numbers driver ≡ parsed a
    → bootstrap s fuel (prog ∷ (driver ++ (dashes ∷ extra)))
      ≡ parsed (main s.machine (run_of s a) fuel s.executable a.dbpath a.source extra)
unfolding bootstrap
bootstrap-dashes s fuel prog driver extra a clean parses =
    rw (partition_args-dashes driver extra clean, parses) refl

-- Where the arguments before the first `--` are parsed, there is an executable, the database is
-- read and no entry raises an exception, the loads are lawful, `--jobs` is at least 1 and there is
-- fuel for the polls, the program ends. The invocations that it prepares are those of the selected
-- entries of the canonical database, one for each and in their order, with exactly the arguments
-- behind the `--`. It ends for them by an exception that the formatter raises on the output of
-- some process in front of the first that cannot be started, by the `OSError` of that one, or,
-- where there is neither, with an exit code that is 0 exactly when no process has a return code
-- above 0.
pub bootstrap-Completes :
    (s : Script) (fuel jobs c : ℕ) (cs prog : Text) (driver extra : List Text)
    (a : DriverArgs s.loads) (db : List Entry) (invocations : List Invocation)
    → contains driver dashes ≡ false
    → iwyu_args s.loads s.numbers driver ≡ parsed a
    → s.executable ≡ some (c ∷ cs)
    → s.machine.load (database_path s.machine a.dbpath) ≡ entries db
    → prepared s.machine (c ∷ cs) a.source extra db ≡ ok invocations
    → IsLawful s.loads
    → a.jobs ≡ pos jobs
    → 0 < jobs
    → future (run_of s a) 0 invocations < fuel
    → (fixed : List Entry) × (fixup_compilation_db s.machine.system db ≡ ok fixed)
      × Matches s.machine.system
          (c ∷ cs)
          extra
          (slice_compilation_db s.machine.system fixed a.source).new_db
          invocations
      × (e : Ended) × (bootstrap s fuel (prog ∷ (driver ++ (dashes ∷ extra))) ≡ parsed e)
      × Completes (run_of s a) invocations e
bootstrap-Completes s fuel jobs c cs prog driver extra a db is clean parses exe read ready L e
      some_job enough =
    let (fixed, fix, matches, done) =
      main-Completes s.machine (run_of s a) jobs fuel c cs a.dbpath a.source extra db is read ready
        L e some_job enough in
    let same =
      bootstrap-dashes s fuel prog driver extra a clean parses
      ∙ ap (λ x. parsed (main s.machine (run_of s a) fuel x a.dbpath a.source extra)) exe in
    (
      fixed,
      fix,
      matches,
      main s.machine (run_of s a) fuel (some (c ∷ cs)) a.dbpath a.source extra,
      same,
      done,
    )

-- Where `int` and `float` read the number of jobs and the load as they are written, no value is
-- `--`, the sources do not start with `-`, there is an executable, the database is read and no
-- entry raises an exception, the loads are lawful, `--jobs` is at least 1 and there is fuel for
-- the polls: the command line that is written for the driver's options, a `--` and arguments for
-- include-what-you-use runs the program to an end. The invocations that it prepares are those of
-- the entries that the sources select of the canonical database, one for each and in their order,
-- with exactly those arguments. It ends for them by an exception that the formatter of the options
-- raises on the output of some process in front of the first that cannot be started, by the
-- `OSError` of that one, or, where there is neither, with an exit code that is 0 exactly when no
-- process has a return code above 0.
pub bootstrap-written :
    (s : Script) (fuel jobs c : ℕ) (cs prog j l : Text) (extra : List Text) (a : DriverArgs s.loads)
    (db : List Entry) (invocations : List Invocation)
    → s.numbers.int_of j ≡ some a.jobs
    → s.numbers.float_of l ≡ some a.load
    → IsProper j
    → IsProper l
    → IsProper a.dbpath
    → all_words a.source ≡ true
    → s.executable ≡ some (c ∷ cs)
    → s.machine.load (database_path s.machine a.dbpath) ≡ entries db
    → prepared s.machine (c ∷ cs) a.source extra db ≡ ok invocations
    → IsLawful s.loads
    → a.jobs ≡ pos jobs
    → 0 < jobs
    → future (run_of s a) 0 invocations < fuel
    → (fixed : List Entry) × (fixup_compilation_db s.machine.system db ≡ ok fixed)
      × Matches s.machine.system
          (c ∷ cs)
          extra
          (slice_compilation_db s.machine.system fixed a.source).new_db
          invocations
      × (e : Ended) × (bootstrap s fuel (prog ∷ (written s.loads a j l ++ (dashes ∷ extra)))
          ≡ parsed e)
      × Completes (run_of s a) invocations e
bootstrap-written s fuel jobs c cs prog j l extra a db is reads reads' proper proper' path words exe
      read ready L e some_job enough =
    bootstrap-Completes s fuel jobs c cs prog (written s.loads a j l) extra a db is
      (written-dashes s.loads a j l words)
      (iwyu_args-written s.loads a s.numbers j l reads reads' proper proper' path words) exe read
      ready L e some_job enough
