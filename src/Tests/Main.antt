-- ===== src/Tests/Main.antt =====
-- `main` of tools/iwyu_tool.py on a database of one entry.
use for_montee.Tests.Checks.{none_of-All, digit, never_number}
use for_montee.IwyuTool.Regex.{match}
use for_montee.IwyuTool.Formatter.{classify}
use for_montee.IwyuTool.Execute.{Run}
use for_montee.IwyuTool.Database.{Failure}
use for_montee.IwyuTool.Main.{clang, iwyu, formatters, escaped}
use for_montee.IwyuTool.Bootstrap.{Script, run_of, bootstrap}
use for_montee.IwyuTool.Options.{DriverArgs, Numbers, iwyu_args}
use for_montee.IwyuTool.Options.RoundTrip.{written, iwyu_args-written}
use for_montee.Argparse.{parsed}
use for_montee.IwyuTool.Bootstrap.Forwarding.{bootstrap-Completes}
use for_montee.IwyuTool.Main.Forms.{Source, as_lists, as_lines, with_database, main-as_lines}
use for_montee.IwyuTool.Main.Formats.{main-IsUnreadable, main_iwyu-NotPositive}
use for_montee.Base.{
  Text, text_eq, ◌++◌, inl, inr, ◌==◌, split_lines, is_blank_line, ◌≡◌, ◌↔◌, refl, ℤ, pos, List, [],
  ◌∷◌, All, codes, some, none, contains, arith, false, true,
}
use for_montee.IwyuTool.Execute.{Invocation, launch_all, any_fails}
use for_montee.IwyuTool.Execute.Ending.{future}
use for_montee.IwyuTool.Execute.ExitCode.{NotPositive}
use for_montee.IwyuTool.Database.{Entry, ok, fixup_compilation_db, slice_compilation_db}
use for_montee.IwyuTool.Main.{Machine, Ended, entries, returned, prepared, main}
use for_montee.IwyuTool.Main.Exit.{Matches, main-Completes, Completes}
use for_montee.Tests.Loads.{falling, falling-IsLawful}
use for_montee.Tests.Database.{system, entry}
use for_montee.Tests.IwyuTool.{run_with, processes}

abbrev machine : Machine
machine = record { system = system; isdir = λ p. false; load = λ p. entries (entry ∷ []) }

abbrev invocation : Invocation
invocation = record { command = codes "iwyu" ∷ codes "-v" ∷ codes "a.cc" ∷ []; cwd = codes "/p" }

prepared_runs :
    prepared machine (codes "iwyu") (codes "a.cc" ∷ []) (codes "-v" ∷ []) (entry ∷ [])
    ≡ ok (invocation ∷ [])
unfolding prepared
prepared_runs = refl

main-Completes_example :
    (fixed : List Entry) × (fixup_compilation_db system (entry ∷ []) ≡ ok fixed)
    × Matches system
        (codes "iwyu")
        (codes "-v" ∷ [])
        (slice_compilation_db system fixed (codes "a.cc" ∷ [])).new_db
        (invocation ∷ [])
    × Completes (run_with (pos 2)) (invocation ∷ []) (
        main machine
          (run_with (pos 2))
          13
          (some (codes "iwyu"))
          (codes "db")
          (codes "a.cc" ∷ [])
          (codes "-v" ∷ []))
unfolding future text_eq
main-Completes_example =
    main-Completes machine (run_with (pos 2)) 2 13 b'i' (codes "wyu") (codes "db")
      (codes "a.cc" ∷ []) (codes "-v" ∷ []) (entry ∷ []) (invocation ∷ []) refl prepared_runs
      falling-IsLawful refl (omega arith) (omega arith)

abbrev unreadable : Text
unreadable =
    codes "a.h should remove these lines:\n- #include \"b.h\"  // lines 3-3\n- class Foo;\n"

abbrev clang_run : Run
clang_run = record (run_with (pos 2)) {
  formatter = formatters (codes "\n") clang;
  launch = λ n i. record { polls = 0; output = unreadable; returncode = pos 0 };
}

main-IsUnreadable_example :
    main machine clang_run 13
      (some (codes "iwyu"))
      (codes "db")
      (codes "a.cc" ∷ [])
      (codes "-v" ∷ [])
    ≡ escaped Failure.attribute_error
unfolding future any_fails launch_all split_lines classify match is_blank_line
main-IsUnreadable_example =
    main-IsUnreadable machine clang_run 2 13 b'i' (codes "wyu") (codes "db") (codes "a.cc" ∷ [])
      (codes "-v" ∷ []) (entry ∷ []) (invocation ∷ []) refl prepared_runs falling-IsLawful refl
      (omega arith) (omega arith) refl (codes "\n")
      (record { polls = 0; output = unreadable; returncode = pos 0 }) refl (inl refl)
      (
        [],
        codes "- #include \"b.h\"  // lines 3-3" ∷ [],
        [],
        codes "a.h",
        codes "- class Foo;",
        refl,
        (inr refl, tt),
        none_of-All (λ c. c == b'\n') (codes "a.h") refl,
        refl,
        refl,
      )

main_iwyu-NotPositive_example :
    (z : ℤ) × (main machine
        (run_with (pos 2))
        13
        (some (codes "iwyu"))
        (codes "db")
        (codes "a.cc" ∷ [])
        (codes "-v" ∷ [])
      ≡ returned z)
    × ((z ≡ pos 0)
        ↔ All (λ p. NotPositive p.returncode) (launch_all (run_with (pos 2)) 0 (invocation ∷ [])))
unfolding future any_fails formatters
main_iwyu-NotPositive_example =
    main_iwyu-NotPositive machine (run_with (pos 2)) 2 13 b'i' (codes "wyu") (codes "db")
      (codes "a.cc" ∷ []) (codes "-v" ∷ []) (entry ∷ []) (invocation ∷ []) refl prepared_runs
      falling-IsLawful refl (omega arith) (omega arith) refl (codes "\n") refl

-- The machine under Windows, and a command with a blank in an argument.
abbrev windows : Machine
windows = record machine {
  system = record machine.system { platform = record { windows = true; lower = λ s. s } };
}

abbrev source : Source
source = record {
  entry = record {
    file = some (codes "a.cc");
    directory = some (codes "/p");
    arguments = none;
    command = none;
  };
  arguments = codes "clang++" ∷ codes "-DNAME=a b" ∷ codes "a.cc" ∷ [];
}

main-as_lines_example :
    main
      (with_database windows (as_lines (source ∷ [])))
      (run_with (pos 2))
      13
      (some (codes "iwyu"))
      (codes "db")
      []
      []
    ≡ main
        (with_database windows (as_lists (source ∷ [])))
        (run_with (pos 2))
        13
        (some (codes "iwyu"))
        (codes "db")
        []
        []
main-as_lines_example =
    main-as_lines windows (run_with (pos 2)) 13 (some (codes "iwyu")) (codes "db") [] []
      (source ∷ []) refl ((refl, (refl, (refl, tt))), tt)

-- The driver's part has been parsed to two jobs and the file `a.cc`.
abbrev driver_args : DriverArgs falling
driver_args = record {
  verbose = true;
  output_format = iwyu;
  jobs = pos 2;
  load = pos 4;
  dbpath = codes "db";
  source = codes "a.cc" ∷ [];
}

abbrev numbers : Numbers falling
numbers = record {
  int_of = digit;
  float_of = digit;
  no_load = pos 0;
  is_negative_number = never_number;
}

abbrev script : Script
script = record {
  machine = machine;
  loads = falling;
  starts = λ n i. true;
  launch = processes;
  linesep = codes "\n";
  executable = some (codes "iwyu");
  numbers = numbers;
}

abbrev driver : List Text
driver = codes "-vj2" ∷ codes "a.cc" ∷ codes "--lo" ∷ codes "4" ∷ codes "-pdb" ∷ []

bootstrap-Completes_example :
    (fixed : List Entry) × (fixup_compilation_db system (entry ∷ []) ≡ ok fixed)
    × Matches system
        (codes "iwyu")
        (codes "-v" ∷ [])
        (slice_compilation_db system fixed (codes "a.cc" ∷ [])).new_db
        (invocation ∷ [])
    × (e : Ended) × (bootstrap script 13
          (codes "iwyu_tool.py" ∷ (driver ++ (codes "--" ∷ codes "-v" ∷ [])))
        ≡ parsed e)
    × Completes (run_of script driver_args) (invocation ∷ []) e
unfolding future contains iwyu_args
bootstrap-Completes_example =
    bootstrap-Completes script 13 2 b'i' (codes "wyu") (codes "iwyu_tool.py") driver
      (codes "-v" ∷ []) driver_args (entry ∷ []) (invocation ∷ []) refl refl refl refl prepared_runs
      falling-IsLawful refl (omega arith) (omega arith)

iwyu_args-written_example :
    iwyu_args falling numbers (written falling driver_args (codes "2") (codes "4"))
    ≡ parsed driver_args
unfolding text_eq
iwyu_args-written_example =
    iwyu_args-written falling driver_args numbers (codes "2") (codes "4") refl refl refl refl refl
      refl
