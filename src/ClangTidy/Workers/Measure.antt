-- ===== src/ClangTidy/Workers/Measure.antt =====
-- How many steps the threads of tools/run-clang-tidy.py can still make.
use for_montee.Base.{ℕ, suc, ◌+◌, ◌*◌, ◌≤◌, ap, ℤ, Text, length, arith}
use for_montee.ClangTidy.Workers.{
  Phase, idle, running, ended, printed, unstarted, undecoded, Ran, Pool, Step, put, get,
  communicate, fail_start, write, fail_decode, task_done, Steps, here, more,
}
use for_montee.ClangTidy.Workers.Totals.{over, over-moved}
use for_montee.ClangTidy.Workers.Balance.{length-snoc}

-- The actions that a worker still has to do on its name.
abbrev pub to_do : Phase → ℕ
to_do idle = 0
to_do (running name) = 3
to_do (ended name) = 2
to_do (printed name) = 1
to_do (unstarted name) = 0
to_do (undecoded name) = 0

abbrev pub steps_left : Pool → ℕ
steps_left s = 5 * length s.waiting + 4 * length s.queue + over to_do s.workers

module _ (max_task : ℤ) (run : Text → Ran) where
  -- Each step leaves fewer steps to make.
  Step-steps_left : (s t : Pool) → Step max_task run s t → suc (steps_left t) ≤ steps_left s
  Step-steps_left _ _ (put s name names e room) =
      let first = ap length e in let last = length-snoc s.queue name in omega arith
  Step-steps_left _ _ (get s name names left right q e) =
      let first = ap length q in
      let change = over-moved to_do s.workers left right idle (running name) e in omega arith
  Step-steps_left _ _ (communicate s name left right z e c) =
      let change = over-moved to_do s.workers left right (running name) (ended name) e in
      omega arith
  Step-steps_left _ _ (fail_start s name left right e c) =
      let change = over-moved to_do s.workers left right (running name) (unstarted name) e in
      omega arith
  Step-steps_left _ _ (write s name left right z e c) =
      let change = over-moved to_do s.workers left right (ended name) (printed name) e in
      omega arith
  Step-steps_left _ _ (fail_decode s name left right z e c) =
      let change = over-moved to_do s.workers left right (ended name) (undecoded name) e in
      omega arith
  Step-steps_left _ _ (task_done s name left right n e u) =
      let change = over-moved to_do s.workers left right (printed name) idle e in omega arith

  pub Steps-steps_left :
      (s : Pool) (n : ℕ) (t : Pool) → Steps max_task run s n t → n + steps_left t ≤ steps_left s
  Steps-steps_left s _ _ here = omega arith
  Steps-steps_left s _ _ (more {n} {t} {u} before step) =
      let ih = Steps-steps_left s n t before in let last = Step-steps_left t u step in omega arith
