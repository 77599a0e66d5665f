-- ===== src/IwyuTool/Execute/Reports.antt =====
-- What `execute` prints and returns once every process has ended.
use mathlib.Core.List.{Perm}
use mathlib.Core.List.Perm
use for_montee.Base.{
  true, false, ◌||◌, ◌⊎◌, ℕ, ◌+◌, ◌<◌, ◌≡◌, refl, ap, sym, ◌∙◌, pos, List, [], ◌++◌, some, length,
  take, drop, arith, Bool-cases, inl, inr, append-nil,
}
use for_montee.IwyuTool.Execute.{
  Invocation, IsLawful, Run, Execution, start_state, launch_all, execute_one, is_one, execute,
  any_fails, startable,
}
use for_montee.IwyuTool.Execute.Fates.{
  fates, worst-perm, worst-fates, any_raising-perm, any_raising-fates,
}
use for_montee.IwyuTool.Execute.Rounds.{processes, startable-all, worst_from, outputs, Stops}
use for_montee.IwyuTool.Execute.InTurn.{execute_one_lem, Outcome, Outcome-starts}
use for_montee.IwyuTool.Execute.Ending.{execute_loop-Ends, Finished, busy, future}
use for_montee.IwyuTool.Execute.Balance.{
  Balanced, lines-fates, any_fails-split, round_of-Balanced, Balanced-raises, start-Balanced,
}

module _ (r : Run) where
  -- What a run comes to: the outputs of all processes, printed once each in some order, and the
  -- greatest of their return codes and 0.
  pub record Reported (is : List Invocation) (t : Execution) : Type 0 where
    pub printed_once : Perm t.printed (outputs r (launch_all r 0 is))
    pub exit_is_worst : t.exit_code ≡ worst_from (pos 0) (launch_all r 0 is)

  all_ended :
      (is : List Invocation) (t : Execution)
      → t.invocations ≡ []
      → t.pending ≡ []
      → (b : Balanced r is t) → Perm b.ended (fates (processes r 0 is))
  unfolding launch_all startable
  all_ended is t no_invocations no_pending b =
      let nothing_left : b.ended
            ++ (fates t.pending ++ fates (processes r t.launched t.invocations))
          ≡ b.ended =
        ap (λ ps. b.ended ++ (fates ps ++ fates (processes r t.launched t.invocations))) no_pending
        ∙ ap (λ is. b.ended ++ fates (processes r t.launched is)) no_invocations
        ∙ append-nil b.ended in
      rw nothing_left at b.accounted

  Balanced-Reported :
      (is : List Invocation) (t : Execution) (b : Balanced r is t)
      → Perm b.ended (fates (launch_all r 0 is))
      → Reported is t
  Balanced-Reported is t b ended = record {
    printed_once = rw (b.printed_is) (rw (← lines-fates r (launch_all r 0 is)) (Perm.map _ ended));
    exit_is_worst = b.exit_is ∙ worst-perm (pos 0) ended ∙ worst-fates (pos 0) (launch_all r 0 is);
  }

  -- An exception ends the run exactly when the formatter raises one on the output of a process or a
  -- start fails, and otherwise the run is complete.
  abbrev pub Result : List Invocation → Execution → Type 0
  Result is t =
      Outcome r (processes r 0 is) (any_fails r 0 is) t × (t.raised ≡ false → Reported is t)

  fails_in_round :
      (is : List Invocation) (s : Execution) (k : ℕ)
      → Balanced r is s
      → any_fails r s.launched (take k s.invocations) ≡ true
      → any_fails r 0 is ≡ true
  fails_in_round is s k b bad =
      sym b.fails_left
      ∙ sym (any_fails-split r k s.launched s.invocations)
      ∙ ap
          (λ b.
            b || any_fails r (s.launched + length (take k s.invocations)) (drop k s.invocations))
          bad

  outcome-Result :
      (is : List Invocation) (t : Execution)
      → Finished (Balanced r is) t
        ⊎ ((t.raised ≡ true) × ((s : Execution) × (k : ℕ) × Balanced r is s × Stops r s k t))
      → Result is t
  unfolding any_fails
  outcome-Result is t (inr (raised, (s, k, b, inl (bad, same, few)))) =
      (inr (inl (raised, same ∙ b.no_failure, Balanced-raises r is s b bad)), λ calm. cc)
  outcome-Result is t (inr (raised, (s, k, b, inr (bad, failed, few)))) =
      (inr (inr (raised, failed, fails_in_round is s k b bad)), λ calm. cc)
  outcome-Result is t (inl f) =
      let ended = all_ended is t f.no_invocations f.no_pending f.holds in
      let starts : any_fails r 0 is ≡ false =
        sym f.holds.fails_left ∙ ap (any_fails r t.launched) f.no_invocations in
      (
        inl (
          f.calm,
          sym (any_raising-fates r false (processes r 0 is))
              ∙ sym (any_raising-perm r false ended)
              ∙ f.holds.none_raises,
          starts,
        ),
        λ calm. Balanced-Reported is t f.holds (rw (startable-all r is 0 starts) at ended),
      )

-- For lawful loads, with `jobs` at least 1 and fuel for the polls that the processes take,
-- `execute` ends, in one of three ways. Every process is started and the formatter raises no
-- exception on their outputs; or an exception of the formatter ends it, which raises one on the
-- output of some process in front of the first that cannot be started; or the `OSError` of a start
-- ends it, and some process cannot be started. In the first case it has printed the formatted
-- output of each process exactly once, in some order, and its exit code is the greatest of 0 and
-- the return codes.
pub execute-Reported :
    (r : Run) (jobs fuel : ℕ) (invocations : List Invocation)
    → IsLawful r.loads
    → r.jobs ≡ pos jobs
    → 0 < jobs
    → future r 0 invocations < fuel
    → (t : Execution) × (execute r fuel invocations ≡ some t) × Result r invocations t
unfolding execute
execute-Reported r jobs fuel is L e p enough = elim (Bool-cases (is_one r.jobs)) [
  | inl one ↦
      let (ended, done) = execute_one_lem r is (start_state is) refl refl in
      (
        execute_one r (start_state is) is,
        rw one refl,
        (
          ended,
          λ calm.
              let starts = startable-all r is 0 (
                Outcome-starts r (processes r 0 is) (any_fails r 0 is)
                  (execute_one r (start_state is) is) ended calm) in
              let (printed, code) = done calm in
              record {
                printed_once = rw (printed, starts) (Perm.refl _);
                exit_is_worst = rw starts at code;
              },
        ),
      )
  | inr many ↦
      let ends =
        execute_loop-Ends r jobs L e p (Balanced r is)
          (λ s k passes b. round_of-Balanced r is s k passes b) fuel (start_state is)
          (unfold busy in omega arith) (omega arith) refl (start-Balanced r is) in
      (ends.last, rw many ends.result, outcome-Result r is ends.last ends.outcome)
]
