-- ===== src/ClangTidy/Workers/Progress.antt =====
-- The threads get done, where there are any.
use for_montee.Base.{
  ℕ, zero, suc, ◌*◌, ◌≤◌, ◌<◌, ◌≡◌, ◌⊎◌, inl, inr, refl, ap, ℤ, pos, List, [], ◌∷◌, ◌++◌, Text,
  length, All, arith,
}
use for_montee.ClangTidy.Workers.{
  Phase, idle, running, ended, printed, unstarted, undecoded, Ran, exits, not_started, not_text,
  returncode, Pool, start_pool, HasRoom, Step, put, get, communicate, fail_start, write, task_done,
  Steps, Joined,
}
use for_montee.ClangTidy.Workers.Totals.{
  one, crashing, dead, total, over, over-le, over-moved, over-replicate, unwritten, is_busy,
}
use for_montee.ClangTidy.Workers.Balance.{Balanced, Steps-Balanced}
use for_montee.ClangTidy.Workers.Measure.{to_do, Steps-steps_left}
use for_montee.ClangTidy.Workers.Threads.{present, Steps-present}

dead-unwritten : (w : Text → ℕ) (p : Phase) → dead w p ≤ unwritten w p
dead-unwritten w idle = omega arith
dead-unwritten w (running name) = omega arith
dead-unwritten w (ended name) = omega arith
dead-unwritten w (printed name) = omega arith
dead-unwritten w (unstarted name) = omega arith
dead-unwritten w (undecoded name) = omega arith

is_suc : (n : ℕ) → 0 < n → (m : ℕ) × (n ≡ suc m)
is_suc zero h = absurd (omega arith)
is_suc (suc n) h = (n, refl)

idle_first :
    (ps : List Phase)
    → over is_busy ps ≡ 0
    → 0 < over present ps
    → (right : List Phase) × (ps ≡ idle ∷ right)
idle_first [] e h = absurd (omega arith)
idle_first (idle ∷ ps) e h = (ps, refl)
idle_first (running name ∷ ps) e h = absurd (omega arith)
idle_first (ended name ∷ ps) e h = absurd (omega arith)
idle_first (printed name ∷ ps) e h = absurd (omega arith)
idle_first (unstarted name ∷ ps) e h = absurd (omega arith)
idle_first (undecoded name ∷ ps) e h = absurd (omega arith)

-- A name whose run raises no exception.
abbrev pub Exits : (Text → Ran) → Text → Type 0
Exits run name = (z : ℤ) × (run name ≡ exits z)

Exits-crashing :
    (run : Text → Ran) (names : List Text) → All (Exits run) names → total (crashing run) names ≡ 0
Exits-crashing run [] a = refl
Exits-crashing run (name ∷ names) ((z, e), a) =
    let first : crashing run name ≡ 0 = rw (crashing, e) refl in
    let rest = Exits-crashing run names a in omega arith

module _ (max_task : ℤ) (run : Text → Ran) where
  -- A worker whose phase is not `idle`.
  Find : List Phase → Type 0
  Find ps =
      ((left : List Phase) × (right : List Phase) × (p : Phase) × (ps ≡ left ++ (p ∷ right))
        × (0 < is_busy p))
      ⊎ (over is_busy ps ≡ 0)

  Find-busy : (ps : List Phase) → Find ps
  unfolding Find
  Find-busy [] = inr refl
  Find-busy (idle ∷ ps) = elim (Find-busy ps) [
    | inl (left, right, p, e, busy) ↦ inl (idle ∷ left, right, p, ap (◌∷◌ idle) e, busy)
    | inr none_busy ↦ inr (omega arith)
  ]
  Find-busy (running name ∷ ps) = inl ([], ps, running name, refl, omega arith)
  Find-busy (ended name ∷ ps) = inl ([], ps, ended name, refl, omega arith)
  Find-busy (printed name ∷ ps) = inl ([], ps, printed name, refl, omega arith)
  Find-busy (unstarted name ∷ ps) = inl ([], ps, unstarted name, refl, omega arith)
  Find-busy (undecoded name ∷ ps) = inl ([], ps, undecoded name, refl, omega arith)

  running-Step :
      (s : Pool) (name : Text) (left right : List Phase) (r : Ran)
      → s.workers ≡ left ++ (running name ∷ right)
      → run name ≡ r
      → (t : Pool) × Step max_task run s t
  running-Step s name left right (exits z) e c =
      (_, communicate s name left right z e (rw (returncode, c) refl))
  running-Step s name left right not_started e c = (_, fail_start s name left right e c)
  running-Step s name left right (not_text z) e c =
      (_, communicate s name left right z e (rw (returncode, c) refl))

  module _ (names : List Text) (s : Pool) (b : Balanced run names s) where
    -- The queue counts the name of a worker that has written it.
    printed-Step :
        (name : Text) (left right : List Phase)
        → s.workers ≡ left ++ (printed name ∷ right)
        → (t : Pool) × Step max_task run s t
    printed-Step name left right e =
        let change = over-moved is_busy s.workers left right (printed name) idle e in
        let (n, u) = is_suc s.unfinished (omega (arith, b.counted)) in
        (_, task_done s name left right n e u)

    -- Where no run raises an exception, no worker is dead.
    none_crashes :
        (p : Phase) (left right : List Phase)
        → total (crashing run) names ≡ 0
        → s.workers ≡ left ++ (p ∷ right)
        → (dead one p ≡ 0) × (unwritten (crashing run) p ≡ 0)
    none_crashes p left right none e =
        let placed = b.placed (crashing run) in
        let at_most =
          over-le (dead (crashing run)) (unwritten (crashing run)) s.workers
            (dead-unwritten (crashing run)) in
        let crashes = b.dead_crashing in
        let here_dead = over-moved (dead one) s.workers left right p idle e in
        let here_unwritten = over-moved (unwritten (crashing run)) s.workers left right p idle e in
        (omega arith, omega arith)

    ended-Step :
        (name : Text) (left right : List Phase) (r : Ran)
        → s.workers ≡ left ++ (ended name ∷ right)
        → run name ≡ r
        → crashing run name ≡ 0
        → (t : Pool) × Step max_task run s t
    ended-Step name left right (exits z) e c none = (_, write s name left right z e c)
    ended-Step name left right not_started e c none =
        absurd (omega (arith, rw (crashing, c) at none))
    ended-Step name left right (not_text z) e c none =
        absurd (omega (arith, rw (crashing, c) at none))

    busy-Step :
        (p : Phase) (left right : List Phase)
        → total (crashing run) names ≡ 0
        → s.workers ≡ left ++ (p ∷ right)
        → 0 < is_busy p
        → (t : Pool) × Step max_task run s t
    busy-Step idle left right none e h = absurd (omega arith)
    busy-Step (running name) left right none e h = running-Step s name left right (run name) e refl
    busy-Step (ended name) left right none e h =
        ended-Step name left right (run name) e refl (none_crashes (ended name) left right none e).1
    busy-Step (printed name) left right none e h = printed-Step name left right e
    busy-Step (unstarted name) left right none e h =
        absurd (omega (arith, (none_crashes (unstarted name) left right none e).0))
    busy-Step (undecoded name) left right none e h =
        absurd (omega (arith, (none_crashes (undecoded name) left right none e).0))

    idle-Step :
        (waiting queue : List Text)
        → HasRoom max_task []
        → over is_busy s.workers ≡ 0
        → 0 < over present s.workers
        → s.waiting ≡ waiting
        → s.queue ≡ queue
        → Joined s ⊎ ((t : Pool) × Step max_task run s t)
    idle-Step [] [] room none_busy threads w q =
        let empty = ap length q in inl (w, omega (arith, b.counted))
    idle-Step (name ∷ rest) [] room none_busy threads w q = inr (_, put s name rest w (rw q room))
    idle-Step waiting (name ∷ rest) room none_busy threads w q =
        let (right, e) = idle_first s.workers none_busy threads in
        inr (_, get s name rest [] right q e)

HasRoom-empty : (n : ℕ) → 0 < n → HasRoom (pos n) []
HasRoom-empty zero h = tt
HasRoom-empty (suc n) h = omega arith

-- With at least one thread, and where no run of clang-tidy raises an exception, no order of steps
-- is stuck before the join returns, and none goes on for ever: at most five steps are made for each
-- name.
pub Steps-Joined :
    (max_task : ℕ) (run : Text → Ran) (names : List Text) (n : ℕ) (s : Pool)
    → 0 < max_task
    → All (Exits run) names
    → Steps (pos max_task) run (start_pool (pos max_task) names) n s
    → (n ≤ 5 * length names) × (Joined s ⊎ ((t : Pool) × Step (pos max_task) run s t))
unfolding Find
Steps-Joined max_task run names n s h all path =
    let left = Steps-steps_left (pos max_task) run (start_pool (pos max_task) names) n s path in
    let none_left = over-replicate to_do max_task refl in
    let threads = Steps-present (pos max_task) run names n s path in
    let b = Steps-Balanced (pos max_task) run names n s path in
    let room = HasRoom-empty max_task h in
    let none = Exits-crashing run names all in
    (
      omega arith,
      elim (Find-busy (pos max_task) run s.workers) [
        | inl (left, right, p, e, busy) ↦
            inr (busy-Step (pos max_task) run names s b p left right none e busy)
        | inr none_busy ↦
            idle-Step (pos max_task) run names s b s.waiting s.queue room none_busy (omega arith)
              refl refl
      ],
    )
