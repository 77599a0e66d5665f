-- ===== src/ClangTidy/Workers/Negative.antt =====
-- A negative `-j` of tools/run-clang-tidy.py.
use for_montee.Base.{ℕ, ◌≡◌, ◌≢◌, refl, ap, negsuc, List, [], ◌∷◌, ◌++◌, Text, arith}
use for_montee.ClangTidy.Workers.{
  Phase, idle, running, ended, printed, Ran, Pool, start_pool, Step, put, get, communicate,
  fail_start, write, fail_decode, task_done, Steps, here, more, Joined,
}
use for_montee.ClangTidy.Workers.Totals.{total}
use for_montee.ClangTidy.Workers.Joining.{Joined-written}

no_worker :
    (left right : List Phase) (p : Phase) (ps : List Phase) → ps ≡ [] → ps ≢ left ++ (p ∷ right)
no_worker [] right p ps e f = cc
no_worker (q ∷ left) right p ps e f = cc

module _ (j : ℕ) (run : Text → Ran) (names : List Text) where
  -- Nothing is done.
  Untouched : Pool → Type 0
  Untouched s = (s.workers ≡ []) × (s.written ≡ [])

  Step-Untouched : (s t : Pool) → Step (negsuc j) run s t → Untouched s → Untouched t
  unfolding Untouched
  Step-Untouched _ _ (put s name rest e room) u = u
  Step-Untouched _ _ (get s name rest left right q e) (no_workers, w) =
      absurd (no_worker left right idle s.workers no_workers e)
  Step-Untouched _ _ (communicate s name left right z e c) (no_workers, w) =
      absurd (no_worker left right (running name) s.workers no_workers e)
  Step-Untouched _ _ (fail_start s name left right e c) (no_workers, w) =
      absurd (no_worker left right (running name) s.workers no_workers e)
  Step-Untouched _ _ (fail_decode s name left right z e c) (no_workers, w) =
      absurd (no_worker left right (ended name) s.workers no_workers e)
  Step-Untouched _ _ (write s name left right z e c) (no_workers, w) =
      absurd (no_worker left right (ended name) s.workers no_workers e)
  Step-Untouched _ _ (task_done s name left right n e c) (no_workers, w) =
      absurd (no_worker left right (printed name) s.workers no_workers e)

  Steps-Untouched :
      (n : ℕ) (s : Pool) → Steps (negsuc j) run (start_pool (negsuc j) names) n s → Untouched s
  unfolding Untouched
  Steps-Untouched _ _ here = (refl, refl)
  Steps-Untouched _ _ (more {n} {t} {u} before step) =
      Step-Untouched t u step (Steps-Untouched n t before)

-- With a negative `-j` and at least one name there are no threads, and the join never returns.
pub negative_never_joins :
    (j : ℕ) (run : Text → Ran) (name : Text) (names : List Text) (n : ℕ) (s : Pool)
    → Steps (negsuc j) run (start_pool (negsuc j) (name ∷ names)) n s
    → ¬ Joined s
unfolding Untouched
negative_never_joins j run name names n s path joined =
    let (no_workers, unwritten) = Steps-Untouched j run (name ∷ names) n s path in
    let all = Joined-written (negsuc j) run (name ∷ names) n s path joined (λ _. 1) in
    let none_written = ap (total (λ _. 1)) unwritten in absurd (omega arith)
