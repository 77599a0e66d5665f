-- ===== src/IwyuTool/Execute/NegativeJobs.antt =====
-- `execute` where `--jobs` is negative.
use for_montee.Base.{
  ℕ, zero, suc, ◌+◌, ◌-◌, ◌<◌, ◌≡◌, ◌⊎◌, inl, inr, refl, ap, sym, ◌∙◌, pos, negsuc, sub_count, true,
  false, ◌&&◌, List, [], ◌∷◌, ◌++◌, some, length, take, drop, is_empty, Bool-cases, arith,
}
use for_montee.IwyuTool.Execute.{
  Invocation, IsLawful, Run, Execution, start_state, complete, running, collect, one_round,
  capacity, execute_loop, is_one, execute, any_fails, startable, schedule, fail_start, launch_all,
}
use for_montee.IwyuTool.Execute.Rounds.{collect_cases, startable-all}
use for_montee.IwyuTool.Execute.Ending.{execute_loop-more}

length-drop {ℓ} : {A : Type ℓ} (n : ℕ) (xs : List A) → length (drop n xs) ≡ length xs - n
length-drop zero xs = omega arith
length-drop (suc n) [] = omega arith
length-drop (suc n) (x ∷ xs) = omega (arith, length-drop n xs)

module _ (r : Run) (k : ℕ) (L : IsLawful r.loads) (e : r.jobs ≡ negsuc k) where
  -- The load does not change a negative capacity.
  capacity_negative : (round n : ℕ) → capacity r round n ≡ negsuc (k + n)
  unfolding capacity
  capacity_negative round n = rw room (elim (Bool-cases (r.loads.is_positive r.max_load_average)) [
    | inr off ↦ rw off refl
    | inl on ↦ rw on (elim (Bool-cases (r.loads.below_zero free)) [
      | inl low ↦ rw low refl
      | inr high ↦ rw high (elim (Bool-cases (r.loads.below free (negsuc (k + n)))) [
        | inr enough ↦ rw enough refl
        | inl fewer ↦ absurd (no_room (L.trunc_bounds free (negsuc (k + n)) high fewer))
      ])
    ])
  ])
    where
      free : r.loads.Float
      free = r.loads.minus r.max_load_average (r.loads.loadavg round)

      room : sub_count r.jobs n ≡ negsuc (k + n)
      room = ap (λ z. sub_count z n) e

      no_room : (m j : ℕ) × (r.loads.trunc free ≡ pos m) × (negsuc (k + n) ≡ pos j) × (m < j) → ⊥
      no_room (m, j, t, c, lt) = cc

  -- A round raises an exception, or it leaves the last of the invocations.
  one_round_negative :
      (s : Execution)
      → s.raised ≡ false
      → 0 < length s.invocations
      → ((one_round r s).raised ≡ true)
        ⊎ (((one_round r s).raised ≡ false) × (0 < length (one_round r s).invocations))
  unfolding one_round schedule fail_start
  one_round_negative s calm h = elim (collect_cases r (complete s.pending) s calm) [
    | inr (bad, raised) ↦ inl (rw raised raised)
    | inl (fine, same) ↦
        let left = length (running s.pending) in
        let n = length s.invocations - suc (k + left) in
        elim (Bool-cases (any_fails r s.launched (take n s.invocations))) [
          | inl fails ↦ inl (rw (same, calm, capacity_negative s.round left, fails) refl)
          | inr starts ↦ inr (
            rw (same, calm, capacity_negative s.round left, starts) refl,
            rw (same, calm, capacity_negative s.round left, starts)
                (omega (arith, length-drop n s.invocations)),
          )
        ]
  ]

  execute_loop-raised :
      (fuel : ℕ) (s t : Execution)
      → s.raised ≡ true
      → execute_loop r fuel s ≡ some t
      → t.raised ≡ true
  unfolding execute_loop
  execute_loop-raised zero s t raised done = cc
  execute_loop-raised (suc fuel) s t raised done =
      let same : some (record s { raised = true }) ≡ some t = rw raised at done in cc

  not_empty {ℓ κ} :
      {A : Type ℓ} {B : Type κ} (xs : List A) (ys : List B)
      → 0 < length xs
      → (is_empty xs && is_empty ys) ≡ false
  not_empty [] ys h = absurd (omega arith)
  not_empty (x ∷ xs) ys h = refl

  execute_loop-zero : (s t : Execution) → execute_loop r zero s ≡ some t → t.raised ≡ true
  unfolding execute_loop
  execute_loop-zero s t done = cc

  execute_loop_negative :
      (fuel : ℕ) (s t : Execution)
      → s.raised ≡ false
      → 0 < length s.invocations
      → execute_loop r fuel s ≡ some t
      → t.raised ≡ true
  execute_loop_negative zero s t calm h done = execute_loop-zero s t done
  execute_loop_negative (suc fuel) s t calm h done =
      let later : execute_loop r fuel (one_round r s) ≡ some t =
        sym (
          execute_loop-more r fuel s (one_round r s) calm (not_empty s.invocations s.pending h)
            refl)
        ∙ done in
      elim (one_round_negative s calm h) [
        | inl raised ↦ execute_loop-raised fuel (one_round r s) t raised later
        | inr (still_calm, left) ↦
            execute_loop_negative fuel (one_round r s) t still_calm left later
      ]

schedule-pending :
    (r : Run) (s : Execution) (n k : ℕ)
    → length s.invocations - suc k ≡ n
    → (schedule r s (negsuc k)).pending
      ≡ s.pending ++ launch_all r s.launched (startable r s.launched (take n s.invocations))
unfolding schedule fail_start
schedule-pending r s n k e = elim (Bool-cases (any_fails r s.launched (take n s.invocations))) [
  | inl fails ↦ rw (e, fails) refl
  | inr starts ↦ rw (e, starts, startable-all r (take n s.invocations) s.launched starts) refl
]

-- For lawful loads, with a negative `--jobs` of -(k+1) and at least one invocation: the first round
-- starts all invocations but the last k+1 at once, however many there are, up to the first that
-- cannot be started, and `execute` never returns an exit code, as it ends only by an exception, if
-- it ends.
pub execute_negative_jobs :
    (r : Run) (k fuel : ℕ) (i : Invocation) (is : List Invocation)
    → IsLawful r.loads
    → r.jobs ≡ negsuc k
    → ((one_round r (start_state (i ∷ is))).pending
        ≡ launch_all r 0 (startable r 0 (take (length (i ∷ is) - suc k) (i ∷ is))))
      × ((t : Execution) → execute r fuel (i ∷ is) ≡ some t → t.raised ≡ true)
unfolding execute one_round collect
execute_negative_jobs r k fuel i is L e =
    let many : is_one r.jobs ≡ false = ap is_one e in
    let none_pending : k + 0 ≡ k = omega arith in
    (
      rw (capacity_negative r k L e 0 0, none_pending)
          (schedule-pending r (record (start_state (i ∷ is)) { round = 1 }) _ k refl),
      λ t done.
          execute_loop_negative r k L e fuel (start_state (i ∷ is)) t refl (omega arith)
            (rw many at done),
    )
