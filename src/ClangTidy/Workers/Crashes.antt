-- ===== src/ClangTidy/Workers/Crashes.antt =====
-- A thread of tools/run-clang-tidy.py that an exception ends: `task_done` is not called for its
-- name.
use for_montee.Base.{ℕ, ◌≤◌, ◌≡◌, ◌≢◌, refl, ap, inl, inr, ℤ, List, [], ◌∷◌, Text, In, arith}
use for_montee.ClangTidy.Workers.{
  Ran, exits, not_started, not_text, start_pool, Pool, Steps, Joined,
}
use for_montee.ClangTidy.Workers.Totals.{total, crashing}
use for_montee.ClangTidy.Workers.Joining.{Joined-crashing}

-- What a name weighs, all names weigh together at least.
In-total : (w : Text → ℕ) (name : Text) (names : List Text) → In name names → w name ≤ total w names
In-total w name [] i = absurd i
In-total w name (x ∷ names) (inl e) = let first = ap w e in omega arith
In-total w name (x ∷ names) (inr i) = let rest = In-total w name names i in omega arith

crashing-raises :
    (run : Text → Ran) (name : Text) (r : Ran)
    → run name ≡ r
    → ((z : ℤ) → run name ≢ exits z)
    → crashing run name ≡ 1
crashing-raises run name (exits z) e h = absurd (h z e)
crashing-raises run name not_started e h = rw (crashing, e) refl
crashing-raises run name (not_text z) e h = rw (crashing, e) refl

-- Where clang-tidy cannot be started on one of the names, or writes what is no UTF-8, no order of
-- steps leads to a state in which the join returns.
pub raising_never_joins :
    (max_task : ℤ) (run : Text → Ran) (names : List Text) (name : Text) (n : ℕ) (s : Pool)
    → In name names
    → ((z : ℤ) → run name ≢ exits z)
    → Steps max_task run (start_pool max_task names) n s
    → ¬ Joined s
raising_never_joins max_task run names name n s i raises path joined =
    let one = crashing-raises run name (run name) refl raises in
    let weight = In-total (crashing run) name names i in
    let none = Joined-crashing max_task run names n s path joined in omega arith
