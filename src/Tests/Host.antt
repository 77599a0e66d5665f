-- ===== src/Tests/Host.antt =====
-- A system for tools/run-clang-format.py: a clang-format that leaves all files but one as they are.
use mathlib.Core.List.Perm
use for_montee.Argparse.{parsed}
use for_montee.ClangFormat.Options.{format_args}
use for_montee.ClangFormat.Script.{script, script-IsFormatted}
use for_montee.Tests.Checks.{digit, never_number}
use for_montee.Base.{
  split, ◌≡◌, ◌↔◌, refl, ℤ, pos, negsuc, Bool, true, false, List, [], ◌∷◌, ◌++◌, All, none, Text,
  codes, join, text_eq, text_eq_iff, Bool-cases, inl, inr, if◌then◌else◌,
}
use for_montee.ClangFormat.Excludes.{opened, excludes_from_file}
use for_montee.ClangFormat.ListFiles.{list_files}
use for_montee.ClangFormat.Diff.{
  Args, gives, fails, Tools, Outcome, done, unexpected_error, run_clang_format_diff_wrapper,
  invocation,
}
use for_montee.ClangFormat.Diff.Formatted.{IsFormatted}
use for_montee.ClangFormat.Main.{consume, initial}
use for_montee.ClangFormat.Main.Status.{consume-perm}
use for_montee.ClangFormat.Program.{
  Ending, Options, Host, works, status, main, printing, auto, always, with_files,
}
use for_montee.ClangFormat.Program.InTurn.{with_files_in_turn}
use for_montee.ClangFormat.Program.Plain.{AllClear, plainly, without_color, main-without_color}

abbrev lines_eq : List Text → List Text → Bool
lines_eq [] [] = true
lines_eq [] (t ∷ ts) = false
lines_eq (s ∷ ss) [] = false
lines_eq (s ∷ ss) (t ∷ ts) = let rest = lines_eq ss ts in if text_eq s t then rest else false

lines_eq_iff : (a b : List Text) → (lines_eq a b ≡ true) ↔ (a ≡ b)
lines_eq_iff [] [] = (λ e. refl, λ e. refl)
lines_eq_iff [] (t ∷ ts) = (λ e. cc, λ e. cc)
lines_eq_iff (s ∷ ss) [] = (λ e. cc, λ e. cc)
lines_eq_iff (s ∷ ss) (t ∷ ts) =
    let (there, back) = lines_eq_iff ss ts in
    let (same, test) = text_eq_iff s t in
    elim (Bool-cases (text_eq s t)) [
      | inl e ↦ rw e (λ r. cc (same e, there r), λ r. back cc)
      | inr e ↦ rw e (λ r. cc, λ r. cc (test cc))
    ]

abbrev unified_diff : Text → List Text → List Text → List Text
unified_diff file a b = if lines_eq a b then [] else (codes "--- " ++ file) ∷ []

unified_diff-IsDiff : (file : Text) (a b : List Text) → (unified_diff file a b ≡ []) ↔ (a ≡ b)
unified_diff-IsDiff file a b =
    let (there, back) = lines_eq_iff a b in
    elim (Bool-cases (lines_eq a b)) [
      | inl e ↦ rw e (λ r. there e, λ r. refl)
      | inr e ↦ rw e (λ r. cc, λ r. cc (back r))
    ]

abbrev tools : Tools
tools = record {
  read_lines = λ file. gives (file ∷ []);
  run = λ command. elim command [
    | exe ∷ file ∷ [] ↦ gives (record {
      outs = if text_eq file (codes "bad.cc") then [] else file ∷ [];
      errs = [];
      returncode = pos 0;
    })
    | _ ↦ fails (codes "no command")
  ];
  unified_diff = unified_diff;
}

abbrev args : Args
args = record {
  clang_format_executable = codes "clang-format";
  style = [];
  in_place = false;
  dry_run = false;
}

abbrev options : List Text → ℤ → Options
options files j = record {
  args = args;
  extensions = codes "cc" ∷ [];
  recursive = false;
  quiet = false;
  exclude = [];
  files = files;
  j = j;
  color = auto;
}

abbrev host : Host
host = record {
  tools = tools;
  check_call = λ command. works;
  ignore_file = opened [];
  read_dir = λ path. none;
  cpu_count = 4;
  stdout_isatty = true;
  stderr_isatty = false;
  prog = codes "run-clang-format.py";
  list2cmdline = join (codes " ");
  formatted_traceback = λ file message. message;
  arrival = λ n os. os;
  pool_output = λ n lines. lines;
}

abbrev crash : Outcome
crash = unexpected_error (codes "c.cc") (codes "MemoryError")

abbrev changed : Outcome
changed = done (codes "--- b.cc" ∷ []) []

consume-perm_example :
    (consume (printing host (options [] (pos 0))) initial (changed ∷ crash ∷ [])).retcode
    ≡ (consume (printing host (options [] (pos 0))) initial (crash ∷ changed ∷ [])).retcode
consume-perm_example =
    consume-perm (printing host (options [] (pos 0))) (changed ∷ crash ∷ []) (crash ∷ changed ∷ [])
      (Perm.swap crash changed [])

main_passes : status (main host (options (codes "a.cc" ∷ codes "b.cc" ∷ []) (pos 0))) ≡ 0
unfolding main text_eq invocation
main_passes = refl

main_finds : status (main host (options (codes "a.cc" ∷ codes "bad.cc" ∷ []) (pos 2))) ≡ 1
unfolding main text_eq invocation
main_finds = refl

-- The pool is made with a negative number of processes.
main_negative : status (main host (options (codes "a.cc" ∷ []) (negsuc 0))) ≡ 1
unfolding main
main_negative = refl

abbrev argv : List Text
argv = codes "--extensions=cc" ∷ codes "-j" ∷ codes "2" ∷ codes "a.cc" ∷ codes "bad.cc" ∷ []

script-IsFormatted_example :
    (e : Ending) × (script digit never_number host argv ≡ parsed e)
    × ((status e ≡ 0)
        ↔ All (IsFormatted tools args) (
            list_files
              (codes "cc" ∷ [])
              []
              false
              (λ path. none)
              (codes "a.cc" ∷ codes "bad.cc" ∷ [])))
unfolding excludes_from_file format_args split
script-IsFormatted_example =
    script-IsFormatted digit never_number host argv
      (options (codes "a.cc" ∷ codes "bad.cc" ∷ []) (pos 2)) 2 [] refl unified_diff-IsDiff refl refl
      (λ n os. Perm.refl os) refl refl refl

-- No file can be read.
abbrev unreadable : Host
unreadable = record host {
  tools = record tools { read_lines = λ file. fails (codes "Permission denied") };
}

with_files_in_turn_example :
    with_files unreadable (options [] (pos 1)) (codes "a.cc" ∷ codes "b.cc" ∷ [])
    ≡ with_files unreadable (options [] (pos 1)) (codes "a.cc" ∷ [])
unfolding run_clang_format_diff_wrapper
with_files_in_turn_example =
    with_files_in_turn unreadable (options [] (pos 1)) [] (codes "a.cc") (codes "b.cc" ∷ []) refl
      refl

-- clang-format changes all files in the same way.
abbrev changing : Host
changing = record host {
  prog = codes "cf";
  tools = record {
    read_lines = λ file. gives (codes "int  a;" ∷ []);
    run = λ command. gives (record { outs = codes "int a;" ∷ []; errs = []; returncode = pos 0 });
    unified_diff = λ file a b. codes "@@" ∷ [];
  };
}

abbrev always_colored : Options
always_colored = record (options (codes "a.cc" ∷ []) (pos 1)) { color = always }

changing-AllClear : AllClear changing always_colored
unfolding run_clang_format_diff_wrapper
changing-AllClear file = ((refl, (refl, tt)), tt)

main-without_color_example :
    (plainly (main changing always_colored)
      ≡ plainly (main changing (without_color always_colored)))
    × (status (main changing always_colored)
        ≡ status (main changing (without_color always_colored)))
main-without_color_example =
    main-without_color changing always_colored changing-AllClear (refl, (refl, tt))
      (λ n os. Perm.refl os)
