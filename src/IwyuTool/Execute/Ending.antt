-- ===== src/IwyuTool/Execute/Ending.antt =====
-- The loop of `execute` ends, where at least one job may run, and does not where none may.
use for_montee.Base.{
  ◌⊎◌, ℕ, zero, suc, ◌+◌, ◌≤◌, ◌<◌, ◌≡◌, refl, ◌∙◌, pos, true, false, ◌&&◌, List, [], ◌∷◌, ◌++◌,
  some, length, take, drop, arith, is_empty, Bool-cases, inl, inr,
}
use for_montee.IwyuTool.Execute.{
  Process, Invocation, IsLawful, Run, Execution, running, complete, launch_all, any_fails,
  one_round, execute_loop,
}
use for_montee.IwyuTool.Execute.Rounds.{round_of, any_raises, Passes, Stops}
use for_montee.IwyuTool.Execute.Pending.{one_round-Fits, round_of-pending}

-- The polls that are still to come of pending processes, one more for each that collects it.
unfoldable pub busy : List Process → ℕ
busy [] = 0
busy (p ∷ ps) = p.polls + 1 + busy ps

busy-cons : (p : Process) (ps : List Process) (n : ℕ) → busy (p ∷ ps) < suc n → 0 < n
unfolding busy
busy-cons p ps n h = omega arith

busy-append : (ps qs : List Process) → busy (ps ++ qs) ≡ busy ps + busy qs
unfolding busy
busy-append [] qs = omega arith
busy-append (p ∷ ps) qs = omega (arith, busy-append ps qs)

busy-running : (ps : List Process) → busy (running ps) + length ps ≤ busy ps
unfolding busy
busy-running [] = omega arith
busy-running (p ∷ ps) = ground (arith, busy-running ps)

module _ (r : Run) where
  -- The same of processes that are not started yet, and one round more for the start of each.
  unfoldable pub future : ℕ → List Invocation → ℕ
  future n [] = 0
  future n (i ∷ is) = (r.launch n i).polls + 2 + future (n + 1) is

  -- Where a start can fail, there is something left to start.
  future-fails :
      (k n : ℕ) (is : List Invocation) (fuel : ℕ)
      → any_fails r n (take k is) ≡ true
      → future n is < suc fuel
      → 0 < fuel
  unfolding any_fails future
  future-fails zero n is fuel bad w = cc
  future-fails (suc k) n [] fuel bad w = cc
  future-fails (suc k) n (i ∷ is) fuel bad w = omega arith

  -- A number that falls in each round.
  abbrev pub weight : Execution → ℕ
  weight s = future s.launched s.invocations + busy s.pending

  future-split :
      (k n : ℕ) (is : List Invocation)
      → busy (launch_all r n (take k is))
          + length (take k is)
          + future (n + length (take k is)) (drop k is)
        ≡ future n is
  unfolding future busy launch_all
  future-split zero n is = let e : n + 0 ≡ n = omega arith in rw e (omega arith)
  future-split (suc k) n [] = refl
  future-split (suc k) n (i ∷ is) =
      let e : n + suc (length (take k is)) ≡ (n + 1) + length (take k is) = omega arith in
      rw e (omega (arith, future-split k (n + 1) is))

  weight-round_of :
      (s : Execution) (k : ℕ)
      → weight (round_of r s k) + length s.pending + length (take k s.invocations) ≤ weight s
  weight-round_of s k = omega (
    arith,
    busy-append (running s.pending) (launch_all r s.launched (take k s.invocations)),
    busy-running s.pending,
    future-split k s.launched s.invocations,
  )

-- The loop has worked through its lists, and what its rounds keep holds.
pub record Finished {κ} (P : Execution → Type κ) (last : Execution) : Type κ where
  pub calm : last.raised ≡ false
  pub holds : P last
  pub no_invocations : last.invocations ≡ []
  pub no_pending : last.pending ≡ []

-- A round of the loop.
pub execute_loop-more :
    (r : Run) (fuel : ℕ) (s t : Execution)
    → s.raised ≡ false
    → (is_empty s.invocations && is_empty s.pending) ≡ false
    → one_round r s ≡ t
    → execute_loop r (suc fuel) s ≡ execute_loop r fuel t
unfolding execute_loop
execute_loop-more r fuel s t calm left e = rw (e, calm, left) refl

-- What is known of the loop's result: it has finished, or a round has stopped in a state in which
-- what its rounds keep holds.
pub record Ends {κ} (r : Run) (fuel : ℕ) (s : Execution) (P : Execution → Type κ) : Type κ where
  pub last : Execution
  pub result : execute_loop r fuel s ≡ some last
  pub outcome :
      Finished P last
      ⊎ ((last.raised ≡ true) × ((t : Execution) × (k : ℕ) × P t × Stops r t k last))

-- The test of the loop fails only where both lists are empty.
both_empty {ℓ κ} :
    {A : Type ℓ} {B : Type κ} (xs : List A) (ys : List B)
    → (is_empty xs && is_empty ys) ≡ true
    → (xs ≡ []) × (ys ≡ [])
both_empty [] [] h = (refl, refl)
both_empty (x ∷ xs) ys h = cc
both_empty [] (y ∷ ys) h = cc

-- Where something is left to do, a round either meets a pending process or starts one.
progress :
    (is : List Invocation) (ps : List Process) (k : ℕ)
    → (is_empty is && is_empty ps) ≡ false
    → (length (running ps) ≡ 0 → 0 < k)
    → 0 < length ps + length (take k is)
progress is (p ∷ ps) k left some_start = omega arith
progress [] [] k left some_start = cc
progress (i ∷ is) [] zero left some_start = absurd (omega (arith, some_start refl))
progress (i ∷ is) [] (suc k) left some_start = omega arith

module _ (r : Run) (jobs : ℕ) (L : IsLawful r.loads) (e : r.jobs ≡ pos jobs) (p : 0 < jobs) where
  -- A process that is collected or started weighs something.
  weight-left : (s t : Execution) (k fuel : ℕ) → Stops r s k t → weight r s < suc fuel → 0 < fuel
  weight-left s t k fuel (inl (bad, same, few)) w = by_pending s.pending bad (omega arith)
    where
      by_pending :
          (ps : List Process)
          → any_raises r false (complete ps) ≡ true
          → busy ps < suc fuel
          → 0 < fuel
      by_pending [] bad w = cc
      by_pending (q ∷ qs) bad w = busy-cons q qs fuel w
  weight-left s t k fuel (inr (bad, failed, few)) w =
      future-fails r k s.launched s.invocations fuel bad (omega arith)

  -- The last round of a loop that an exception ends.
  Ends-raised {κ} :
      (P : Execution → Type κ)
      → (fuel : ℕ) (s : Execution) (k : ℕ) → P s
      → (one_round r s).raised ≡ true
      → Stops r s k (one_round r s)
      → 0 < fuel
      → Ends r fuel (one_round r s) P
  unfolding execute_loop
  Ends-raised P zero s k i raised stops h = absurd (omega arith)
  Ends-raised P (suc fuel) s k i raised stops h = record {
    last = one_round r s;
    result = rw raised refl;
    outcome = inr (raised, (s, k, i, stops));
  }

  -- One round in front of the rest of the loop.
  Ends-more {κ} :
      (P : Execution → Type κ)
      → (fuel : ℕ) (s t : Execution) → s.raised ≡ false
      → (is_empty s.invocations && is_empty s.pending) ≡ false
      → one_round r s ≡ t
      → Ends r fuel t P
      → Ends r (suc fuel) s P
  Ends-more P fuel s t calm left e tail = record {
    last = tail.last;
    result = execute_loop-more r fuel s t calm left e ∙ tail.result;
    outcome = tail.outcome;
  }

  -- The loop returns a state: either its lists are empty there and what every round keeps holds, or
  -- an exception has ended it.
  pub execute_loop-Ends {κ} :
      (P : Execution → Type κ)
      → ((s : Execution) (k : ℕ) → Passes r s k → P s → P (round_of r s k))
      → (fuel : ℕ) (s : Execution) → weight r s < fuel
      → length s.pending ≤ jobs
      → s.raised ≡ false
      → P s
      → Ends r fuel s P
  unfolding execute_loop
  execute_loop-Ends P keeps zero s w h calm i = absurd (omega arith)
  execute_loop-Ends P keeps (suc fuel) s w h calm i =
      elim (Bool-cases (is_empty s.invocations && is_empty s.pending)) [
        | inl done ↦
            let (no_invocations, no_pending) = both_empty s.invocations s.pending done in
            record {
              last = s;
              result = rw (calm, done) refl;
              outcome = inl (record {
                calm = calm;
                holds = i;
                no_invocations = no_invocations;
                no_pending = no_pending;
              });
            }
        | inr left ↦ elim (one_round-Fits r jobs L e p s h calm) [
          | inr (k, raised, stops, fits) ↦
              Ends-more P fuel s (one_round r s) calm left refl (
                Ends-raised P fuel s k i raised stops
                  (weight-left s (one_round r s) k fuel stops w))
          | inl (k, passes, eq, fits, some_start) ↦
              let step = progress s.invocations s.pending k left some_start in
              Ends-more P fuel s (round_of r s k) calm left eq (
                execute_loop-Ends P keeps fuel (round_of r s k)
                  (omega (arith, weight-round_of r s k)) (round_of-pending r jobs L e p s k fits)
                  calm (keeps s k passes i))
        ]
      ]
