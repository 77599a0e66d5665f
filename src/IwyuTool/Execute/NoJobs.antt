-- ===== src/IwyuTool/Execute/NoJobs.antt =====
-- `execute` where `--jobs` is 0.
use for_montee.Base.{
  ℕ, zero, suc, ◌<◌, ◌≡◌, refl, ap, ◌∙◌, sub_count, pos, false, ◌&&◌, List, [], ◌∷◌, ◌++◌, none,
  length, arith, is_empty, Bool-cases, inl, inr,
}
use for_montee.IwyuTool.Execute.{
  Invocation, IsLawful, Run, Execution, start_state, running, complete, launch_all, capacity,
  execute_loop, is_one, execute, any_fails,
}
use for_montee.IwyuTool.Execute.Rounds.{round_of, one_round_cases, any_raises}
use for_montee.IwyuTool.Execute.Ending.{execute_loop-more}

-- With `jobs` 0 no process is ever started.
capacity_none :
    (r : Run) (round : ℕ) → IsLawful r.loads → r.jobs ≡ pos 0 → capacity r round 0 ≡ pos 0
unfolding capacity
capacity_none r round L e = rw room (elim (Bool-cases (r.loads.is_positive r.max_load_average)) [
  | inr off ↦ rw off
  | inl on ↦ rw on (elim (Bool-cases (r.loads.below_zero free)) [
    | inl low ↦ rw low
    | inr high ↦ rw high (elim (Bool-cases (r.loads.below free (pos 0))) [
      | inr enough ↦ rw enough
      | inl fewer ↦ absurd (no_room (L.trunc_bounds free (pos 0) high fewer))
    ])
  ])
])
  where
    free : r.loads.Float
    free = r.loads.minus r.max_load_average (r.loads.loadavg round)

    room : sub_count r.jobs 0 ≡ pos 0
    room = ap (λ z. sub_count z 0) e

    no_room : (m k : ℕ) × (r.loads.trunc free ≡ pos m) × (pos 0 ≡ pos k) × (m < k) → ⊥
    no_room (m, k, t, c, lt) = ground arith

execute_loop-none :
    (r : Run) (fuel : ℕ) (s : Execution) (i : Invocation) (is : List Invocation)
    → IsLawful r.loads
    → r.jobs ≡ pos 0
    → s.invocations ≡ i ∷ is
    → s.pending ≡ []
    → s.raised ≡ false
    → execute_loop r fuel s ≡ none
unfolding execute_loop launch_all any_fails
execute_loop-none r zero s i is L e left idle calm = refl
execute_loop-none r (suc fuel) s i is L e left idle calm =
    let none_running : length (running s.pending) ≡ 0 = ap (λ ps. length (running ps)) idle in
    let none_complete : any_raises r false (complete s.pending) ≡ false =
      ap (λ ps. any_raises r false (complete ps)) idle in
    let kept : running s.pending ++ [] ≡ [] = ap (λ ps. running ps ++ []) idle in
    let not_done : (is_empty s.invocations && is_empty s.pending) ≡ false =
      ap (λ xs. is_empty xs && is_empty s.pending) left in
    elim (one_round_cases r s 0 calm
      (ap (capacity r s.round) none_running ∙ capacity_none r s.round L e)) [
        | inl (fine, eq) ↦
            execute_loop-more r fuel s (round_of r s 0) calm not_done eq
            ∙ execute_loop-none r fuel (round_of r s 0) i is L e left kept calm
        | inr (raised, inl (bad, same, few)) ↦ cc (none_complete, bad)
        | inr (raised, inr (bad, failed, few)) ↦ cc
      ]

-- For lawful loads, with `--jobs 0` and at least one invocation the loop does not end: no fuel
-- gives a result.
pub execute_no_jobs :
    (r : Run) (fuel : ℕ) (i : Invocation) (is : List Invocation)
    → IsLawful r.loads
    → r.jobs ≡ pos 0
    → execute r fuel (i ∷ is) ≡ none
unfolding execute
execute_no_jobs r fuel i is L e =
    let many : is_one r.jobs ≡ false = ap is_one e in
    rw many (execute_loop-none r fuel (start_state (i ∷ is)) i is L e refl refl refl)
