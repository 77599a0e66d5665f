-- ===== src/ClangTidy/Fixes/ExitCode.antt =====
-- The exit code of tools/run-clang-tidy.py, and what is exported.
use for_montee.Base.{ℕ, ◌≡◌, ◌↔◌, ℤ, List, Text, All, arith}
use for_montee.ClangTidy.Workers.{Ran, Pool, start_pool, Steps, Joined, return_code}
use for_montee.ClangTidy.Workers.Joining.{Succeeds, Joined-Handled}
use for_montee.ClangTidy.Fixes.{Attempted, skipped, succeeded, failed, after, exit_code}

abbrev pub IsFine : Attempted → Type 0
IsFine failed = ⊥
IsFine _ = Unit

after-zero : (a : Attempted) (n : ℕ) → (after a n ≡ 0) ↔ (IsFine a × (n ≡ 0))
after-zero skipped n = (λ e. (tt, e), λ x. x.1)
after-zero succeeded n = (λ e. (tt, e), λ x. x.1)
after-zero failed n = (λ e. absurd (omega arith), λ x. absurd x.0)

-- In whatever order the threads work, when the join returns the program's exit code is 0 exactly
-- when clang-tidy ended with 0 on every name and neither exporting nor applying the fixes raised an
-- exception.
pub exit_code-Succeeds :
    (max_task : ℤ) (run : Text → Ran) (names : List Text) (n : ℕ) (s : Pool)
    (export fix : Attempted)
    → Steps max_task run (start_pool max_task names) n s
    → Joined s
    → (exit_code export fix s ≡ 0) ↔ (All (Succeeds run) names × IsFine export × IsFine fix)
unfolding exit_code
exit_code-Succeeds max_task run names n s export fix path joined =
    let (handled, (of_code, to_code)) = Joined-Handled max_task run names n s path joined in
    let (fix_there, fix_back) = after-zero fix (after export (return_code s)) in
    let (there, back) = after-zero export (return_code s) in
    (
      λ e.
          let (fixed, rest) = fix_there e in
          let (exported, code) = there rest in (of_code code, exported, fixed),
      λ (all, exported, fixed). fix_back (fixed, back (exported, to_code all)),
    )
