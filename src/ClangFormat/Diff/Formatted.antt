-- ===== src/ClangFormat/Diff/Formatted.antt =====
-- When `run_clang_format_diff` finds nothing to report.
use for_montee.Base.{zero, suc, ◌≡◌, ◌↔◌, refl, sym, ℤ, pos, negsuc, false, List, [], ◌∷◌, Text}
use for_montee.ClangFormat.Diff.{
  Args, Attempt, gives, fails, crashes, Finished, Tools, Outcome, done, diff_error,
  unexpected_error, invocation, after_process, after_read, run_clang_format_diff_wrapper,
}

-- `difflib.unified_diff` gives no lines exactly for equal sequences.
abbrev pub IsDiff : Tools → Type 0
IsDiff t = (file : Text) (a b : List Text) → (t.unified_diff file a b ≡ []) ↔ (a ≡ b)

-- The file was handled and there is no line to show.
abbrev pub IsQuiet : Outcome → Type 0
IsQuiet (done [] errs) = Unit
IsQuiet (done (l ∷ ls) errs) = ⊥
IsQuiet (diff_error m errs) = ⊥
IsQuiet (unexpected_error file m) = ⊥

-- clang-format succeeds on the file and prints it as it is.
abbrev pub IsFormatted : Tools → Args → Text → Type 0
IsFormatted t args file =
    (original : List Text) × (p : Finished) × (t.read_lines file ≡ gives original)
    × (t.run (invocation args file) ≡ gives p)
    × (p.returncode ≡ pos 0)
    × (p.outs ≡ original)

module _ (t : Tools) (args : Args) (file : Text) (d : IsDiff t) (check : args.in_place ≡ false)
    (real : args.dry_run ≡ false) where
  quiet_diff :
      (original outs errs : List Text)
      → IsQuiet (done (t.unified_diff file original outs) errs)
      → outs ≡ original
  quiet_diff original outs errs q = by_lines (t.unified_diff file original outs) refl q
    where
      by_lines :
          (ls : List Text)
          → t.unified_diff file original outs ≡ ls
          → IsQuiet (done ls errs)
          → outs ≡ original
      by_lines [] e q = sym ((d file original outs).0 e)
      by_lines (l ∷ ls) e q = absurd q

  after_process-quiet :
      (original : List Text) (p : Finished)
      → IsQuiet (after_process t args file original p)
      → (p.returncode ≡ pos 0) × (p.outs ≡ original)
  unfolding after_process
  after_process-quiet original p q = by_code p.returncode refl
    where
      by_code : (z : ℤ) → p.returncode ≡ z → (p.returncode ≡ pos 0) × (p.outs ≡ original)
      by_code (pos zero) e = (e, quiet_diff original p.outs p.errs (rw (e, check) at q))
      by_code (pos (suc n)) e = absurd (rw e at q)
      by_code (negsuc n) e = absurd (rw e at q)

  after_read-quiet :
      (original : List Text)
      → t.read_lines file ≡ gives original
      → IsQuiet (after_read t args file original)
      → IsFormatted t args file
  unfolding after_read invocation
  after_read-quiet original e q = by_run (t.run (invocation args file)) refl
    where
      by_run : (a : Attempt Finished) → t.run (invocation args file) ≡ a → IsFormatted t args file
      by_run (gives p) r =
          let (zero_code, same) = after_process-quiet original p (rw (real, r) at q) in
          (original, p, e, r, zero_code, same)
      by_run (fails exc) r = absurd (rw (real, r) at q)
      by_run (crashes exc) r = absurd (rw (real, r) at q)

  wrapper_forward :
      (a : Attempt (List Text))
      → t.read_lines file ≡ a
      → IsQuiet (run_clang_format_diff_wrapper t args file)
      → IsFormatted t args file
  unfolding run_clang_format_diff_wrapper
  wrapper_forward (gives original) e q =
      after_read-quiet original e (rw (e, run_clang_format_diff_wrapper) at q)
  wrapper_forward (fails exc) e q = absurd (rw (e, run_clang_format_diff_wrapper) at q)
  wrapper_forward (crashes exc) e q = absurd (rw (e, run_clang_format_diff_wrapper) at q)

  wrapper_backward : IsFormatted t args file → IsQuiet (run_clang_format_diff_wrapper t args file)
  unfolding run_clang_format_diff_wrapper invocation
  wrapper_backward (original, p, read, run, zero_code, same) =
      let no_lines : t.unified_diff file original p.outs ≡ [] =
        (d file original p.outs).1 (sym same) in
      rw
        (
          run_clang_format_diff_wrapper, after_read, after_process, read, real, run, zero_code,
          check, no_lines,
        )
        tt

  -- Without `--in-place` and `--dry-run`, and where `unified_diff` is empty exactly for equal
  -- lines, a file is passed over exactly when it can be read and clang-format ends with code 0 and
  -- prints the lines of the file as they are.
  pub wrapper-IsQuiet :
      IsQuiet (run_clang_format_diff_wrapper t args file) ↔ IsFormatted t args file
  wrapper-IsQuiet = (wrapper_forward (t.read_lines file) refl, wrapper_backward)
