-- ===== src/ClangTidy/Workers/Joining.antt =====
-- When `task_queue.join()` returns, and what holds then.
use for_montee.Base.{
  ℕ, zero, suc, ◌≡◌, ◌↔◌, refl, ap, ℤ, pos, negsuc, List, [], ◌∷◌, Text, length, All, is_empty,
  if◌then◌else◌, arith,
}
use for_montee.ClangTidy.Workers.{
  Phase, idle, running, ended, printed, unstarted, undecoded, Ran, exits, not_started, not_text,
  Pool, start_pool, Steps, Joined, return_code,
}
use for_montee.ClangTidy.Workers.Totals.{
  one, crashing, total, over, unwritten, noted, is_busy, if_failing,
}
use for_montee.ClangTidy.Workers.Balance.{Steps-Balanced}

over-idle :
    (f : Phase → ℕ) (ps : List Phase)
    → ((p : Phase) → is_busy p ≡ 0 → f p ≡ 0)
    → over is_busy ps ≡ 0
    → over f ps ≡ 0
over-idle f [] h e = refl
over-idle f (p ∷ ps) h e =
    let first = h p (omega arith) in let rest = over-idle f ps h (omega arith) in omega arith

unwritten-idle : (w : Text → ℕ) (p : Phase) → is_busy p ≡ 0 → unwritten w p ≡ 0
unwritten-idle w idle e = refl
unwritten-idle w (running name) e = absurd (omega arith)
unwritten-idle w (ended name) e = absurd (omega arith)
unwritten-idle w (printed name) e = refl
unwritten-idle w (unstarted name) e = absurd (omega arith)
unwritten-idle w (undecoded name) e = absurd (omega arith)

noted-idle : (w : Text → ℕ) (p : Phase) → is_busy p ≡ 0 → noted w p ≡ 0
noted-idle w idle e = refl
noted-idle w (running name) e = refl
noted-idle w (ended name) e = absurd (omega arith)
noted-idle w (printed name) e = refl
noted-idle w (unstarted name) e = refl
noted-idle w (undecoded name) e = absurd (omega arith)

total-empty : (w : Text → ℕ) (xs : List Text) → length xs ≡ 0 → total w xs ≡ 0
total-empty w [] e = refl
total-empty w (x ∷ xs) e = absurd (omega arith)

total-one : (xs : List Text) → total one xs ≡ length xs
total-one [] = refl
total-one (x ∷ xs) = let ih = total-one xs in omega arith

-- clang-tidy ends with 0 on a file, and what it wrote is text.
abbrev pub Succeeds : (Text → Ran) → Text → Type 0
Succeeds run name = run name ≡ exits (pos zero)

-- A name of weight 0 by both sums is one that clang-tidy ends with 0 on.
pub weightless-Succeeds :
    (run : Text → Ran) (name : Text) (r : Ran)
    → run name ≡ r
    → crashing run name ≡ 0
    → (if_failing run one name ≡ 0) ↔ Succeeds run name
weightless-Succeeds run name (exits (pos zero)) e c = (λ z. e, λ h. rw (if_failing, h) refl)
weightless-Succeeds run name (exits (pos (suc n))) e c =
    (λ z. absurd (omega (arith, rw (if_failing, e) at z)), λ h. rw (if_failing, h) refl)
weightless-Succeeds run name (exits (negsuc n)) e c =
    (λ z. absurd (omega (arith, rw (if_failing, e) at z)), λ h. rw (if_failing, h) refl)
weightless-Succeeds run name not_started e c = absurd (omega (arith, rw (crashing, e) at c))
weightless-Succeeds run name (not_text z) e c = absurd (omega (arith, rw (crashing, e) at c))

total-if_failing :
    (run : Text → Ran) (names : List Text)
    → total (crashing run) names ≡ 0
    → (total (if_failing run one) names ≡ 0) ↔ All (Succeeds run) names
total-if_failing run [] c = (λ e. tt, λ a. refl)
total-if_failing run (name ∷ names) c =
    let (first, first_back) = weightless-Succeeds run name (run name) refl (omega (arith, c)) in
    let (rest, rest_back) = total-if_failing run names (omega (arith, c)) in
    (
      λ t. (first (omega (arith, t)), rest (omega (arith, t))),
      λ a. omega (arith, first_back a.0, rest_back a.1),
    )

abbrev if_empty : List Text → ℕ
if_empty xs = if is_empty xs then 0 else 1

code-length : (xs : List Text) → (if_empty xs ≡ 0) ↔ (length xs ≡ 0)
code-length [] = (λ e. refl, λ e. refl)
code-length (x ∷ xs) = (λ e. absurd (omega arith), λ e. absurd (omega arith))

return_code-length : (s : Pool) → (return_code s ≡ 0) ↔ (length s.failed_files ≡ 0)
unfolding return_code
return_code-length s = code-length s.failed_files

module _ (max_task : ℤ) (run : Text → Ran) (names : List Text) (n : ℕ) (s : Pool)
    (path : Steps max_task run (start_pool max_task names) n s) (joined : Joined s) where
  Joined-idle : (length s.queue ≡ 0) × (over is_busy s.workers ≡ 0)
  Joined-idle =
      let counted = (Steps-Balanced max_task run names n s path).counted in
      let none_left = joined.1 in (omega arith, omega arith)

  -- Any weights of the written names add up to those of all names.
  pub Joined-written : (w : Text → ℕ) → total w s.written ≡ total w names
  Joined-written w =
      let placed = (Steps-Balanced max_task run names n s path).placed w in
      let (no_queue, no_busy) = Joined-idle in
      let waiting = ap (total w) joined.0 in
      let queue = total-empty w s.queue no_queue in
      let workers = over-idle (unwritten w) s.workers (unwritten-idle w) no_busy in omega arith

  -- No run has raised an exception.
  pub Joined-crashing : total (crashing run) names ≡ 0
  Joined-crashing =
      let whole = (Steps-Balanced max_task run names n s path).written_whole in
      let all = Joined-written (crashing run) in omega arith

  Joined-failed : length s.failed_files ≡ total (if_failing run one) names
  Joined-failed =
      let f = if_failing run one in
      let failed = (Steps-Balanced max_task run names n s path).noted_failed one in
      let (no_queue, no_busy) = Joined-idle in
      let workers = over-idle (noted f) s.workers (noted-idle f) no_busy in
      let by_length = total-one s.failed_files in let all_written = Joined-written f in omega arith

-- When the join returns, each name has been handled exactly once: any weights of the written names
-- add up to those of all names. The exit code is 0 exactly when clang-tidy ended with 0 on each.
pub Joined-Handled :
    (max_task : ℤ) (run : Text → Ran) (names : List Text) (n : ℕ) (s : Pool)
    → Steps max_task run (start_pool max_task names) n s
    → Joined s
    → ((w : Text → ℕ) → total w s.written ≡ total w names)
      × ((return_code s ≡ 0) ↔ All (Succeeds run) names)
Joined-Handled max_task run names n s path joined =
    let failed = Joined-failed max_task run names n s path joined in
    let crashes = Joined-crashing max_task run names n s path joined in
    let (there, back) = total-if_failing run names crashes in
    let (of_code, to_code) = return_code-length s in
    (
      Joined-written max_task run names n s path joined,
      (λ e. let l = of_code e in there (omega arith), λ a. let t = back a in to_code (omega arith)),
    )
