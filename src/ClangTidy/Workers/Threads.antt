-- ===== src/ClangTidy/Workers/Threads.antt =====
-- How many threads there are: an exception ends a thread, which then no longer takes names, and no
-- thread is started.
use for_montee.Base.{ℕ, zero, suc, ◌≡◌, refl, ◌∙◌, ℤ, List, Text, replicate, arith}
use for_montee.ClangTidy.Workers.{
  Phase, idle, running, ended, printed, unstarted, undecoded, Ran, Pool, thread_count, start_pool,
  Step, put, get, communicate, fail_start, write, fail_decode, task_done, Steps, here, more,
}
use for_montee.ClangTidy.Workers.Totals.{over, over-moved}

abbrev pub present : Phase → ℕ
present p = 1

over-replicate-present : (n : ℕ) → over present (replicate n idle) ≡ n
over-replicate-present zero = refl
over-replicate-present (suc n) = let ih = over-replicate-present n in omega arith

module _ (max_task : ℤ) (run : Text → Ran) where
  Step-present :
      (s t : Pool) → Step max_task run s t → over present t.workers ≡ over present s.workers
  Step-present _ _ (put s name names e room) = refl
  Step-present _ _ (get s name names left right q e) =
      let change = over-moved present s.workers left right idle (running name) e in omega arith
  Step-present _ _ (communicate s name left right z e c) =
      let change = over-moved present s.workers left right (running name) (ended name) e in
      omega arith
  Step-present _ _ (fail_start s name left right e c) =
      let change = over-moved present s.workers left right (running name) (unstarted name) e in
      omega arith
  Step-present _ _ (write s name left right z e c) =
      let change = over-moved present s.workers left right (ended name) (printed name) e in
      omega arith
  Step-present _ _ (fail_decode s name left right z e c) =
      let change = over-moved present s.workers left right (ended name) (undecoded name) e in
      omega arith
  Step-present _ _ (task_done s name left right n e u) =
      let change = over-moved present s.workers left right (printed name) idle e in omega arith

  pub Steps-present :
      (names : List Text) (n : ℕ) (s : Pool)
      → Steps max_task run (start_pool max_task names) n s
      → over present s.workers ≡ thread_count max_task
  Steps-present names _ _ here = over-replicate-present (thread_count max_task)
  Steps-present names _ _ (more {n} {t} {u} before step) =
      Step-present t u step ∙ Steps-present names n t before
