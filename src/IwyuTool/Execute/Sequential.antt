-- ===== src/IwyuTool/Execute/Sequential.antt =====
-- `execute` with several jobs against `execute` with one.
use mathlib.Core.List.{Perm}
use for_montee.Base.{
  Bool-cases, inl, inr, ℕ, ◌+◌, ◌<◌, ◌≡◌, refl, ap, sym, ◌∙◌, pos, false, not, ◌||◌, List, [], ◌∷◌,
  some,
}
use for_montee.IwyuTool.Execute.{
  startable, Invocation, IsLawful, Run, Execution, start_state, launch_all, execute_one, execute,
  any_fails,
}
use for_montee.IwyuTool.Execute.InTurn.{execute_one_lem, Outcome-raised, Outcome-starts}
use for_montee.IwyuTool.Execute.Rounds.{processes, startable-all}
use for_montee.IwyuTool.Execute.Ending.{future}
use for_montee.IwyuTool.Execute.Reports.{execute-Reported}

-- The same processes, one after the other.
abbrev pub sequential : Run → Run
sequential r = record r { jobs = pos 1 }

processes-sequential :
    (r : Run) (n : ℕ) (is : List Invocation) → processes (sequential r) n is ≡ processes r n is
unfolding launch_all startable
processes-sequential r n [] = refl
processes-sequential r n (i ∷ is) = elim (Bool-cases (r.starts n i)) [
  | inl starts ↦ rw starts (ap (◌∷◌ (r.launch n i)) (processes-sequential r (n + 1) is))
  | inr fails ↦ rw fails refl
]

any_fails-sequential :
    (r : Run) (n : ℕ) (is : List Invocation) → any_fails (sequential r) n is ≡ any_fails r n is
unfolding any_fails
any_fails-sequential r n [] = refl
any_fails-sequential r n (i ∷ is) =
    ap (λ b. not (r.starts n i) || b) (any_fails-sequential r (n + 1) is)

-- For lawful loads, with `--jobs` at least 1 and fuel for the polls that the processes take: where
-- the n-th start is the same, `execute` ends by an exception exactly when it does with `--jobs 1`,
-- be it one of the formatter or of a start, which may differ. Where it ends by none, it prints the
-- same reports in some order, and the exit code is the same, whatever the load and however long
-- the processes run.
pub execute-sequential :
    (r : Run) (jobs fuel : ℕ) (is : List Invocation)
    → IsLawful r.loads
    → r.jobs ≡ pos jobs
    → 0 < jobs
    → future r 0 is < fuel
    → (t : Execution) × (u : Execution) × (execute r fuel is ≡ some t)
      × (execute (sequential r) fuel is ≡ some u)
      × (t.raised ≡ u.raised)
      × (t.raised ≡ false → Perm t.printed u.printed × (t.exit_code ≡ u.exit_code))
unfolding execute
execute-sequential r jobs fuel is L e some_job enough =
    let (t, result, (ended, done)) = execute-Reported r jobs fuel is L e some_job enough in
    let q = sequential r in
    let (ended_one, done_one) = execute_one_lem q is (start_state is) refl refl in
    let same = processes-sequential r 0 is in
    let u = execute_one q (start_state is) is in
    let raised_one = Outcome-raised q (processes q 0 is) (any_fails q 0 is) u ended_one in
    let as_one : t.raised ≡ u.raised =
      Outcome-raised r (processes r 0 is) (any_fails r 0 is) t ended
      ∙ sym (rw (same, any_fails-sequential r 0 is) at raised_one) in
    (
      t,
      execute_one q (start_state is) is,
      result,
      refl,
      as_one,
      λ calm.
          let (printed, code) = done_one (sym as_one ∙ calm) in
          let starts =
            startable-all r is 0
              (Outcome-starts r (processes r 0 is) (any_fails r 0 is) t ended calm) in
          let reported = done calm in
          (
            rw (printed, same, starts) (reported.printed_once),
            rw (code, same, starts) (reported.exit_is_worst),
          ),
    )
