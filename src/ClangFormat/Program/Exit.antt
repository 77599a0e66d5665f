-- ===== src/ClangFormat/Program/Exit.antt =====
-- The exit status of `main` of tools/run-clang-format.py.
use mathlib.Core.List.{Perm}
use for_montee.Base.{
  ℕ, zero, suc, ◌≡◌, ◌≢◌, ◌↔◌, refl, ap, sym, ◌∙◌, pos, false, List, [], ◌∷◌, ◌++◌, Text, codes,
  All, arith, length, leb, Bool-cases, inl, inr,
}
use for_montee.ClangFormat.Excludes.{excludes, excludes_from_file}
use for_montee.ClangFormat.ListFiles.{list_files}
use for_montee.ClangFormat.Diff.{
  Outcome, done, diff_error, unexpected_error, run_clang_format_diff_wrapper,
}
use for_montee.ClangFormat.Diff.Formatted.{IsDiff, IsQuiet, IsFormatted, wrapper-IsQuiet}
use for_montee.ClangFormat.Main.{
  ExitStatus, success, code, initial, Jobs, direct, pool, value_error, plan_jobs, jobs_of,
  min_count,
}
use for_montee.ClangFormat.Main.Status.{gravest, consume-gravest, gravest-IsQuiet, consume-perm}
use for_montee.ClangFormat.Program.{
  printing, Options, Host, works, status, outcomes, is_done, evaluated, prints, loop_over,
  with_jobs, with_files, with_excludes, main,
}

-- A pool gives each result once, in some order.
abbrev pub IsArrival : Host → Type 0
IsArrival h = (n : ℕ) (os : List Outcome) → Perm (h.arrival n os) os

jobs_of-suc : (n : ℕ) → jobs_of (pos (suc n)) ≢ value_error
jobs_of-suc zero = cc
jobs_of-suc (suc n) = cc

jobs_of_min : (k m : ℕ) → jobs_of (min_count (suc k) (pos (suc m))) ≢ value_error
jobs_of_min k m = elim (Bool-cases (leb (suc k) (suc m))) [
  | inl e ↦ rw e (jobs_of-suc k)
  | inr e ↦ rw e (jobs_of-suc m)
]

plan_jobs_valid : (n cpus k : ℕ) → plan_jobs (pos n) cpus (suc k) ≢ value_error
unfolding plan_jobs
plan_jobs_valid zero cpus k = jobs_of_min k cpus
plan_jobs_valid (suc n) cpus k = jobs_of_min k n

code_success : (r : ExitStatus) → (code r ≡ 0) ↔ (r ≡ success)
code_success r = ground arith

raising-IsQuiet : (x : Outcome) → is_done x ≡ false → IsQuiet x → ⊥
raising-IsQuiet (done outs errs) stops quiet = cc
raising-IsQuiet (diff_error message errs) stops quiet = quiet
raising-IsQuiet (unexpected_error file message) stops quiet = quiet

module _ (h : Host) (o : Options) where
  loop_over-IsQuiet :
      (printed : List Text) (os : List Outcome)
      → (status (loop_over h o printed os) ≡ 0) ↔ All IsQuiet os
  loop_over-IsQuiet printed os =
      let gravest_is = consume-gravest (printing h o) os initial refl in
      let (of_code, to_code) = code_success (gravest success os) in
      let (there, back) = gravest-IsQuiet os in
      rw gravest_is (λ e. there (of_code e), λ a. to_code (back a))

  -- Where the generator of one job is finished early, the file that finished it is not quiet.
  evaluated-IsQuiet :
      (files : List Text)
      → All IsQuiet (outcomes h o (evaluated h o files)) ↔ All IsQuiet (outcomes h o files)
  unfolding evaluated outcomes
  evaluated-IsQuiet [] = (λ a. a, λ a. a)
  evaluated-IsQuiet (file ∷ files) =
      let (there, back) = evaluated-IsQuiet files in
      elim (Bool-cases (is_done (run_clang_format_diff_wrapper h.tools o.args file))) [
        | inl fine ↦ rw fine (λ a. (a.0, there a.1), λ a. (a.0, back a.1))
        | inr stops ↦
            rw stops
              (λ a. absurd (raising-IsQuiet _ stops a.0), λ a. absurd (raising-IsQuiet _ stops a.0))
      ]

  with_jobs-IsQuiet :
      IsArrival h
      → (jobs : Jobs) (files : List Text) → jobs ≢ value_error
      → (status (with_jobs h o jobs files) ≡ 0) ↔ All IsQuiet (outcomes h o files)
  unfolding with_jobs
  with_jobs-IsQuiet fair direct files valid =
      let (there, back) =
        loop_over-IsQuiet (prints h o (evaluated h o files)) (outcomes h o (evaluated h o files)) in
      let (all, some_of) = evaluated-IsQuiet files in (λ e. all (there e), λ a. back (some_of a))
  with_jobs-IsQuiet fair value_error files valid = absurd (valid refl)
  with_jobs-IsQuiet fair (pool n) files valid =
      let same = consume-perm (printing h o) _ _ (fair n (outcomes h o files)) in
      let (there, back) =
        loop_over-IsQuiet (h.pool_output n (prints h o files)) (outcomes h o files) in
      (λ e. there (sym (ap code same) ∙ e), λ a. ap code same ∙ back a)

  module _ (d : IsDiff h.tools) (check : o.args.in_place ≡ false)
      (real : o.args.dry_run ≡ false) where
    outcomes-IsFormatted :
        (files : List Text)
        → All IsQuiet (outcomes h o files) ↔ All (IsFormatted h.tools o.args) files
    unfolding outcomes
    outcomes-IsFormatted [] = (λ a. a, λ a. a)
    outcomes-IsFormatted (file ∷ files) =
        let (there, back) = outcomes-IsFormatted files in
        let (quiet, formatted) = wrapper-IsQuiet h.tools o.args file d check real in
        (λ a. (quiet a.0, there a.1), λ a. (formatted a.0, back a.1))

    with_files-IsFormatted :
        IsArrival h
        → (n : ℕ) → o.j ≡ pos n
        → (files : List Text)
        → (status (with_files h o files) ≡ 0) ↔ All (IsFormatted h.tools o.args) files
    unfolding with_files
    with_files-IsFormatted fair n e [] = (λ s. tt, λ a. refl)
    with_files-IsFormatted fair n e (file ∷ files) =
        let valid : plan_jobs o.j h.cpu_count (suc (length files)) ≢ value_error =
          rw e (plan_jobs_valid n h.cpu_count (length files)) in
        let (there, back) = with_jobs-IsQuiet fair _ (file ∷ files) valid in
        let (quiet, formatted) = outcomes-IsFormatted (file ∷ files) in
        (λ s. quiet (there s), λ a. back (formatted a))

    -- Where `clang-format --version` works, the file of excluded patterns can be read or is
    -- missing, `-j` is not negative, neither `--in-place` nor `--dry-run` is given, `unified_diff`
    -- is empty exactly for equal lines and a pool gives each result once in some order, the exit
    -- status is 0 exactly when every listed file can be read and clang-format ends with code 0 on
    -- it and prints its lines as they are.
    pub main-IsFormatted :
        IsArrival h
        → (n : ℕ) → o.j ≡ pos n
        → h.check_call (o.args.clang_format_executable ∷ codes "--version" ∷ []) ≡ works
        → (patterns : List Text) → excludes_from_file h.ignore_file ≡ excludes patterns
        → (status (main h o) ≡ 0)
          ↔ All
              (IsFormatted h.tools o.args)
              (list_files o.extensions (patterns ++ o.exclude) o.recursive h.read_dir o.files)
    unfolding main with_excludes
    main-IsFormatted fair n e works_ patterns read =
        rw (main, works_, read) (with_files-IsFormatted fair n e _)
