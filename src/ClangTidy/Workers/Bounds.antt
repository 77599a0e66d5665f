-- ===== src/ClangTidy/Workers/Bounds.antt =====
-- How much is under way at a time in tools/run-clang-tidy.py.
use for_montee.Base.{
  ℕ, zero, suc, ◌*◌, ◌≤◌, ◌<◌, ◌≡◌, ap, ℤ, pos, List, ◌∷◌, ◌++◌, Text, length, arith,
}
use for_montee.ClangTidy.Workers.{
  Phase, idle, running, ended, printed, unstarted, undecoded, Ran, Pool, start_pool, HasRoom, Step,
  put, get, communicate, fail_start, write, fail_decode, task_done, Steps, here, more,
}
use for_montee.ClangTidy.Workers.Totals.{over, over-le, over-moved, is_busy}
use for_montee.ClangTidy.Workers.Balance.{Steps-Balanced, length-snoc}
use for_montee.ClangTidy.Workers.Threads.{present, Steps-present}

HasRoom-lt : (n : ℕ) (queue : List Text) → 0 < n → HasRoom (pos n) queue → length queue < n
HasRoom-lt zero queue h room = absurd (omega arith)
HasRoom-lt (suc n) queue h room = room

module _ (n : ℕ) (h : 0 < n) (run : Text → Ran) where
  Step-queue : (s t : Pool) → Step (pos n) run s t → length s.queue ≤ n → length t.queue ≤ n
  Step-queue _ _ (put s name names e room) le =
      let lt = HasRoom-lt n s.queue h room in let last = length-snoc s.queue name in omega arith
  Step-queue _ _ (get s name names left right q e) le = let first = ap length q in omega arith
  Step-queue _ _ (communicate s name left right z e c) le = le
  Step-queue _ _ (fail_start s name left right e c) le = le
  Step-queue _ _ (write s name left right z e c) le = le
  Step-queue _ _ (fail_decode s name left right z e c) le = le
  Step-queue _ _ (task_done s name left right k e u) le = le

  Steps-queue :
      (names : List Text) (k : ℕ) (s : Pool)
      → Steps (pos n) run (start_pool (pos n) names) k s
      → length s.queue ≤ n
  Steps-queue names _ _ here = omega arith
  Steps-queue names _ _ (more {n = k} {t} {u} before step) =
      Step-queue t u step (Steps-queue names k t before)

is_busy-present : (p : Phase) → is_busy p ≤ present p
is_busy-present idle = omega arith
is_busy-present (running name) = omega arith
is_busy-present (ended name) = omega arith
is_busy-present (printed name) = omega arith
is_busy-present (unstarted name) = omega arith
is_busy-present (undecoded name) = omega arith

-- With `max_task` threads, at least one, the queue never holds more than `max_task` names, no more
-- than `max_task` names are at threads, and `join` waits for at most twice as many.
pub Steps-Bounded :
    (max_task : ℕ) (run : Text → Ran) (names : List Text) (n : ℕ) (s : Pool)
    → 0 < max_task
    → Steps (pos max_task) run (start_pool (pos max_task) names) n s
    → (length s.queue ≤ max_task)
      × (over is_busy s.workers ≤ max_task)
      × (s.unfinished ≤ 2 * max_task)
Steps-Bounded max_task run names n s h path =
    let queue = Steps-queue max_task h run names n s path in
    let busy = over-le is_busy present s.workers is_busy-present in
    let threads = Steps-present (pos max_task) run names n s path in
    let counted = (Steps-Balanced (pos max_task) run names n s path).counted in
    (queue, omega arith, omega arith)

-- A thread that comes to `task_done` finds a count that is not 0, so `task_done` raises no
-- exception, however many threads there are and whatever the other threads do.
pub task_done-unfinished :
    (max_task : ℤ) (run : Text → Ran) (names : List Text) (n : ℕ) (s : Pool) (name : Text)
    (left right : List Phase)
    → Steps max_task run (start_pool max_task names) n s
    → s.workers ≡ left ++ (printed name ∷ right)
    → 0 < s.unfinished
task_done-unfinished max_task run names n s name left right path e =
    let counted = (Steps-Balanced max_task run names n s path).counted in
    let change = over-moved is_busy s.workers left right (printed name) idle e in omega arith
