-- ===== src/ClangFormat/Program/InTurn.antt =====
-- tools/run-clang-format.py with one job, where a file raises an exception.
use for_montee.Base.{
  ℕ, zero, suc, ◌≡◌, refl, ap, sym, ◌∙◌, pos, false, List, [], ◌∷◌, ◌++◌, Text, length, Bool-cases,
  inl, inr, arith,
}
use for_montee.ClangFormat.Diff.{run_clang_format_diff_wrapper}
use for_montee.ClangFormat.Main.{direct, plan_jobs}
use for_montee.ClangFormat.Program.{
  Options, Host, is_done, evaluated, outcomes, prints, loop_over, with_jobs, with_files,
}

plan_jobs_one : (cpus k : ℕ) → plan_jobs (pos 1) cpus (suc k) ≡ direct
unfolding plan_jobs
plan_jobs_one cpus zero = refl
plan_jobs_one cpus (suc k) = ground arith

module _ (h : Host) (o : Options) where
  evaluated-append :
      (before : List Text) (file : Text) (rest : List Text)
      → is_done (run_clang_format_diff_wrapper h.tools o.args file) ≡ false
      → evaluated h o (before ++ (file ∷ rest)) ≡ evaluated h o (before ++ (file ∷ []))
  unfolding evaluated
  evaluated-append [] file rest bad = rw bad refl
  evaluated-append (first ∷ before) file rest bad =
      elim (Bool-cases (is_done (run_clang_format_diff_wrapper h.tools o.args first))) [
        | inl fine ↦ rw fine (ap (◌∷◌ first) (evaluated-append before file rest bad))
        | inr stops ↦ rw stops refl
      ]

  with_files_direct :
      (file : Text) (files : List Text)
      → o.j ≡ pos 1
      → with_files h o (file ∷ files) ≡ with_jobs h o direct (file ∷ files)
  unfolding with_files
  with_files_direct file files one = rw (one, plan_jobs_one h.cpu_count (length files)) refl

  with_jobs_direct :
      (before : List Text) (file : Text) (rest : List Text)
      → is_done (run_clang_format_diff_wrapper h.tools o.args file) ≡ false
      → with_jobs h o direct (before ++ (file ∷ rest))
        ≡ with_jobs h o direct (before ++ (file ∷ []))
  unfolding with_jobs
  with_jobs_direct before file rest bad =
      ap (λ fs. loop_over h o (prints h o fs) (outcomes h o fs))
        (evaluated-append before file rest bad)

  -- With `-j 1`, the files behind one that raises an exception, an error of clang-format included,
  -- are not looked at: `main` goes on as if they were not listed.
  pub with_files_in_turn :
      (before : List Text) (file : Text) (rest : List Text)
      → o.j ≡ pos 1
      → is_done (run_clang_format_diff_wrapper h.tools o.args file) ≡ false
      → with_files h o (before ++ (file ∷ rest)) ≡ with_files h o (before ++ (file ∷ []))
  with_files_in_turn [] file rest one bad =
      with_files_direct file rest one
      ∙ with_jobs_direct [] file rest bad
      ∙ sym (with_files_direct file [] one)
  with_files_in_turn (first ∷ before) file rest one bad =
      with_files_direct first (before ++ (file ∷ rest)) one
      ∙ with_jobs_direct (first ∷ before) file rest bad
      ∙ sym (with_files_direct first (before ++ (file ∷ [])) one)
