-- ===== src/IwyuTool/Execute/Pending.antt =====
-- Never more than `jobs` processes are pending.
use for_montee.Base.{
  true, false, ◌⊎◌, inl, inr, Bool-cases, ℕ, zero, suc, ◌+◌, ◌≤◌, ◌<◌, ◌≡◌, pos, List, [], ◌∷◌,
  length, length-append, length-take-le, take, arith,
}
use for_montee.IwyuTool.Execute.{
  Invocation, Process, IsLawful, Run, Execution, start_state, running, launch_all, one_round,
  capacity,
}
use for_montee.IwyuTool.Execute.Capacity.{Fits, capacity-Fits}
use for_montee.IwyuTool.Execute.Rounds.{
  round_of, one_round_cases, one_round-raised, length-launch_all, Passes, Stops,
}

pub length-running-le : (ps : List Process) → length (running ps) ≤ length ps
length-running-le [] = omega arith
length-running-le (p ∷ ps) = ground (arith, length-running-le ps)

-- The state after `n` rounds.
unfoldable pub rounds : Run → ℕ → Execution → Execution
rounds r zero s = s
rounds r (suc n) s = rounds r n (one_round r s)

module _ (r : Run) (jobs : ℕ) (L : IsLawful r.loads) (e : r.jobs ≡ pos jobs) (p : 0 < jobs) where
  -- A round in closed form, with what its number of starts is bound by, if it raises no exception.
  pub one_round-Fits :
      (s : Execution)
      → length s.pending ≤ jobs
      → s.raised ≡ false
      → ((k : ℕ) × Passes r s k
          × (one_round r s ≡ round_of r s k)
          × (length (running s.pending) + k ≤ jobs)
          × (length (running s.pending) ≡ 0 → 0 < k))
        ⊎ ((k : ℕ) × ((one_round r s).raised ≡ true)
            × Stops r s k (one_round r s)
            × (length (running s.pending) + k ≤ jobs))
  one_round-Fits s h calm = elim (one_round_cases r s f.count calm f.is_count) [
    | inl (passes, e) ↦ inl (f.count, passes, e, f.within, f.some_start)
    | inr (raised, stops) ↦ inr (f.count, raised, stops, f.within)
  ]
    where
      f : Fits jobs (length (running s.pending)) (capacity r s.round (length (running s.pending)))
      f = capacity-Fits r jobs s.round _ L e p (omega (arith, length-running-le s.pending))

  pub round_of-pending :
      (s : Execution) (k : ℕ)
      → length (running s.pending) + k ≤ jobs
      → length (round_of r s k).pending ≤ jobs
  round_of-pending s k h = omega (
    arith,
    length-append (running s.pending) (launch_all r s.launched (take k s.invocations)),
    length-launch_all r (take k s.invocations) s.launched,
    length-take-le k s.invocations,
  )

  pub one_round-pending :
      (s : Execution) → length s.pending ≤ jobs → length (one_round r s).pending ≤ jobs
  one_round-pending s h = elim (Bool-cases s.raised) [
    | inl raised ↦ rw (one_round-raised r s raised) h
    | inr calm ↦ elim (one_round-Fits s h calm) [
      | inl (k, passes, e, fits, some_start) ↦ rw e (round_of-pending s k fits)
      | inr (k, raised, inl (bad, same, few), fits) ↦ omega arith
      | inr (k, raised, inr (bad, failed, few), fits) ↦
          omega (arith, length-take-le k s.invocations)
    ]
  ]

  rounds-pending_from :
      (n : ℕ) (s : Execution) → length s.pending ≤ jobs → length (rounds r n s).pending ≤ jobs
  unfolding rounds
  rounds-pending_from zero s h = h
  rounds-pending_from (suc n) s h = rounds-pending_from n _ (one_round-pending s h)

  -- For lawful loads and with `jobs` at least 1, at most `jobs` processes are pending after any
  -- number of rounds of the loop, whatever the load and however long the processes run.
  pub rounds-pending :
      (n : ℕ) (invocations : List Invocation)
      → length (rounds r n (start_state invocations)).pending ≤ jobs
  rounds-pending n invocations = rounds-pending_from n (start_state invocations) (omega arith)
