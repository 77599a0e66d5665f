-- ===== src/Tests/TidyMain.antt =====
-- tools/run-clang-tidy.py: a whole run on a database that has one file twice and a file that the
-- filter does not match.
use mathlib.Core.List.Perm
use for_montee.Base.{
  ℕ, List, ◌⊎◌, ◌≡◌, ◌↔◌, ◌≤◌, ◌*◌, length, refl, pos, true, false, ◌&&◌, [], ◌∷◌, ◌++◌, none, some,
  Text, codes, contains, ends_with, if◌then◌else◌, arith,
}
use for_montee.ClangTidy.Workers.{
  Joined, exits, idle, Pool, start_pool, put, get, communicate, write, task_done, note_end, Steps,
  here, more,
}
use for_montee.ClangTidy.Workers.Totals.{total, is_name}
use for_montee.ClangTidy.Host.{Entry, Options, Host, reached}
use for_montee.ClangTidy.Main.{Ready, prepare, names, run_of, finish, Runs, finishes}
use for_montee.ClangTidy.Main.Names.{IsOrder}
use for_montee.ClangTidy.Main.Success.{main-Once}
use for_montee.ClangTidy.Options.{tidy_args}
use for_montee.ClangTidy.Script.{read_argv, ScriptRuns, goes_on, Promise, script-Success}
use for_montee.Argparse.{system_exit}
use for_montee.Tests.Checks.{digit, never_number}
use for_montee.ClangTidy.Main.Returns.{main_returns}

abbrev entry : Text → Entry
entry file = record { file = some file; directory = some (codes "/p/build") }

abbrev host : Host ℕ
host = record {
  which = λ name. some name;
  isfile = λ path. true;
  realpath = λ path. codes "/p";
  has_yaml = true;
  mkdtemp = some (codes "/tmp/t");
  mkstemp = λ directory file. directory ++ codes "/1.yaml";
  check_call = λ command. true;
  load = λ path.
      some (entry (codes "../a.cc") ∷ entry (codes "/p/b.c") ∷ entry (codes "/p/a.cc") ∷ []);
  order = λ names. names;
  cpu_count = 1;
  compile = λ pattern. some (λ name. ends_with name pattern);
  clang_tidy = λ command. exits (pos 0);
  replacements = λ directory. [];
  write_file = λ file merged. true;
  call = λ command. true;
  rmtree = λ directory. true;
}

abbrev options : Options
options = record {
  build_path = none;
  clang_tidy_binary = [];
  clang_apply_replacements_binary = [];
  tidy = record {
    checks = [];
    header_filter = none;
    allow_enabling_alpha_checkers = false;
    extra_arg = [];
    extra_arg_before = [];
    quiet = false;
    config_file = [];
    config = [];
    line_filter = none;
    use_color = none;
    plugins = [];
  };
  export_fixes = [];
  fix = true;
  format = false;
  style = codes "file";
  j = pos 0;
  files = codes ".cc" ∷ [];
}

abbrev file : Text
file = codes "/p/a.cc"

abbrev ready : Ready
ready = record {
  build_path = codes "/p";
  clang_tidy_binary = codes "clang-tidy";
  temporary = some (record {
    tmpdir = codes "/tmp/t";
    clang_apply_replacements_binary = codes "clang-apply-replacements";
  });
  files = file ∷ codes "/p/b.c" ∷ file ∷ [];
  file_name_re = λ name. ends_with name (codes ".cc");
  max_task = pos 1;
}

prepare_runs : prepare host options ≡ reached ready
unfolding prepare
prepare_runs = refl

abbrev last : Pool
last = record (start_pool (pos 1) (file ∷ [])) {
  waiting = [];
  unfinished = 0;
  workers = idle ∷ [];
  written = file ∷ [];
}

names_run : names host options ready ≡ file ∷ []
unfolding names ends_with contains
names_run = refl

path :
    Steps (pos 1) (run_of host options ready) (start_pool (pos 1) (names host options ready)) 5 last
unfolding note_end names run_of ends_with contains
path =
    more
      (more
        (more (more (more here (put _ file [] refl (omega arith))) (get _ file [] [] [] refl refl))
          (communicate _ file [] [] (pos 0) refl refl))
        (write _ file [] [] (pos 0) refl refl))
      (task_done _ file [] [] 0 refl refl)

whole_run : Runs host options (finish host options ready last)
whole_run = finishes ready 5 last prepare_runs path (refl, refl)

in_order : IsOrder host.order
in_order names = Perm.refl names

abbrev argv : List Text
argv = codes "-fix" ∷ codes ".cc" ∷ []

script_runs : ScriptRuns host (λ v. v) digit never_number argv (finish host options ready last)
unfolding tidy_args
script_runs = goes_on options (finish host options ready last) refl whole_run

script-Success_example : ((finish host options ready last).status ≡ 0) ↔ (
    (read_argv host (λ v. v) digit never_number argv ≡ system_exit 0)
    ⊎ Promise host (λ v. v) digit never_number argv)
script-Success_example =
    script-Success host (λ v. v) digit never_number argv (finish host options ready last) in_order
      script_runs

main-Once_example :
    total (is_name file) last.written
    ≡ (if ready.file_name_re file && contains ready.files file then 1 else 0)
main-Once_example = main-Once host options ready 5 last file in_order path (refl, refl)

main_returns_example :
    (0 ≤ 5 * length (names host options ready))
    × ((m : ℕ) × (t : Pool) × Steps
          (pos 1)
          (run_of host options ready)
          (start_pool (pos 1) (names host options ready))
          m
          t
        × Joined t)
main_returns_example =
    main_returns host options 0 ready 0 (start_pool (pos 1) (names host options ready)) refl
      (λ command. (pos 0, refl)) prepare_runs here

finish_runs : (finish host options ready last).status ≡ 0
unfolding finish
finish_runs = refl
