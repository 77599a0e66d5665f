-- ===== src/IwyuTool/Execute/ExitCode.antt =====
-- When the exit code of `execute` is 0.
use for_montee.Base.{
  false, ℕ, zero, suc, ◌<◌, ◌≡◌, ◌↔◌, refl, ℤ, pos, negsuc, max_ℤ, List, [], ◌∷◌, some, All, arith,
  leb, Bool-cases, inl, inr, ◌-◌,
}
use for_montee.IwyuTool.Execute.{
  Invocation, Process, IsLawful, Run, Execution, launch_all, execute, any_fails,
}
use for_montee.IwyuTool.Execute.Rounds.{worst_from, processes}
use for_montee.IwyuTool.Execute.InTurn.{Outcome}
use for_montee.IwyuTool.Execute.Ending.{future}
use for_montee.IwyuTool.Execute.Reports.{execute-Reported}

-- No failure is reported: the code is 0, or a signal ended the process.
abbrev pub NotPositive : ℤ → Type 0
NotPositive (pos zero) = Unit
NotPositive (pos (suc n)) = ⊥
NotPositive (negsuc n) = Unit

worst_from_positive :
    (n : ℕ) (ps : List Process) → (k : ℕ) × (worst_from (pos (suc n)) ps ≡ pos (suc k))
worst_from_positive n [] = (n, refl)
worst_from_positive n (p ∷ ps) = let (m, e) = larger p.returncode in rw e (worst_from_positive m ps)
  where
    larger : (z : ℤ) → (m : ℕ) × (max_ℤ (pos (suc n)) z ≡ pos (suc m))
    larger (pos k) = elim (Bool-cases (leb (suc n) k)) [
      | inl h ↦ (k - 1, ground arith)
      | inr h ↦ (n, ground arith)
    ]
    larger (negsuc k) = (n, refl)

module _ (z : ℤ) (ps : List Process) where
  -- One code in front of the others.
  worst_from-zero_cons :
      (worst_from (pos 0) ps ≡ pos 0) ↔ All (λ (p : Process). NotPositive p.returncode) ps
      → (worst_from (max_ℤ (pos 0) z) ps ≡ pos 0)
        ↔ (NotPositive z × All (λ (p : Process). NotPositive p.returncode) ps)
  worst_from-zero_cons ih = by_code z
    where
      by_code :
          (z : ℤ)
          → (worst_from (max_ℤ (pos 0) z) ps ≡ pos 0)
            ↔ (NotPositive z × All (λ (p : Process). NotPositive p.returncode) ps)
      by_code (pos zero) = (λ h. (tt, ih.0 h), λ a. ih.1 a.1)
      by_code (pos (suc n)) =
          let (k, e) = worst_from_positive n ps in (λ h. absurd (ground arith), λ a. absurd a.0)
      by_code (negsuc n) = (λ h. (tt, ih.0 h), λ a. ih.1 a.1)

worst_from-zero :
    (ps : List Process) → (worst_from (pos 0) ps ≡ pos 0) ↔ All (λ p. NotPositive p.returncode) ps
worst_from-zero [] = (λ _. tt, λ _. refl)
worst_from-zero (p ∷ ps) = worst_from-zero_cons p.returncode ps (worst_from-zero ps)

-- For lawful loads, with `jobs` at least 1 and fuel for the polls that the processes take,
-- `execute` ends: by no exception, which the formatter and the starts then raise nowhere, by one of
-- the formatter, or by one of a start. If by none, the exit code is 0 exactly when no process has a
-- return code above 0. A process that a signal ended has a code below
-- 0, so it does not count.
pub execute-NotPositive :
    (r : Run) (jobs fuel : ℕ) (invocations : List Invocation)
    → IsLawful r.loads
    → r.jobs ≡ pos jobs
    → 0 < jobs
    → future r 0 invocations < fuel
    → (t : Execution) × (execute r fuel invocations ≡ some t)
      × Outcome r (processes r 0 invocations) (any_fails r 0 invocations) t
      × (t.raised ≡ false
          → (t.exit_code ≡ pos 0)
            ↔ All (λ p. NotPositive p.returncode) (launch_all r 0 invocations))
execute-NotPositive r jobs fuel is L e p enough =
    let (t, result, (ended, done)) = execute-Reported r jobs fuel is L e p enough in
    (t, result, ended, λ calm. rw ((done calm).exit_is_worst) (worst_from-zero (launch_all r 0 is)))
