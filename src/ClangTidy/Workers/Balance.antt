-- ===== src/ClangTidy/Workers/Balance.antt =====
-- What every step of the threads keeps.
use for_montee.Base.{
  some, replicate, ◌∙◌, ℕ, suc, ◌+◌, ◌≡◌, refl, ap, ℤ, List, [], ◌∷◌, ◌++◌, Text, length, arith,
  Bool-cases, inl, inr,
}
use for_montee.ClangTidy.Workers.{
  Ran, returncode, Phase, idle, running, ended, printed, unstarted, undecoded, Pool, thread_count,
  start_pool, fails, note_end, Step, put, get, communicate, fail_start, write, fail_decode,
  task_done, Steps, here, more,
}
use for_montee.ClangTidy.Workers.Totals.{
  dead, one, crashing, total, total-append, over, over-moved, over-replicate, unwritten, noted,
  is_busy, if_failing,
}

pub length-snoc : (xs : List Text) (x : Text) → length (xs ++ (x ∷ [])) ≡ suc (length xs)
length-snoc [] x = refl
length-snoc (y ∷ xs) x = let ih = length-snoc xs x in omega arith

pub total-snoc :
    (w : Text → ℕ) (xs : List Text) (x : Text) → total w (xs ++ (x ∷ [])) ≡ total w xs + w x
total-snoc w xs x = let e = total-append w xs (x ∷ []) in omega arith

total-note_end :
    (run : Text → Ran) (w : Text → ℕ) (name : Text) (z : ℤ) (failed : List Text)
    → returncode (run name) ≡ some z
    → total w (note_end z name failed) ≡ total w failed + if_failing run w name
unfolding note_end
total-note_end run w name z failed e = elim (Bool-cases (fails z)) [
  | inl bad ↦ rw (if_failing, e, bad) (total-snoc w failed name)
  | inr good ↦ rw (if_failing, e, good) (omega arith)
]

-- Each name is at one place, with any weights of the names; a name is among the failed ones when
-- its end is noted and its return code is not 0; the queue counts what is put and not done. What is
-- written raised no exception, and the names of dead threads did.
pub record Balanced (run : Text → Ran) (names : List Text) (s : Pool) : Type 0 where
  pub placed :
      (w : Text → ℕ)
      → total w s.waiting + total w s.queue + over (unwritten w) s.workers + total w s.written
        ≡ total w names
  pub noted_failed :
      (w : Text → ℕ)
      → total w s.failed_files
        ≡ total (if_failing run w) s.written + over (noted (if_failing run w)) s.workers
  pub counted : s.unfinished ≡ length s.queue + over is_busy s.workers
  pub written_whole : total (crashing run) s.written ≡ 0
  pub dead_crashing : over (dead one) s.workers ≡ over (dead (crashing run)) s.workers

module _ (max_task : ℤ) (run : Text → Ran) (names : List Text) where
  start_pool-Balanced : Balanced run names (start_pool max_task names)
  start_pool-Balanced =
      let idle_sum : (f : Phase → ℕ)
          → f idle ≡ 0
          → over f (replicate (thread_count max_task) idle) ≡ 0 =
        λ f e. over-replicate f (thread_count max_task) e in
      record {
        placed = λ w. omega (arith, idle_sum (unwritten w) refl);
        noted_failed = λ w. omega (arith, idle_sum (noted (if_failing run w)) refl);
        counted = omega (arith, idle_sum is_busy refl);
        written_whole = refl;
        dead_crashing =
            omega (arith, idle_sum (dead one) refl, idle_sum (dead (crashing run)) refl);
      }

  -- A worker goes from one phase to the next, and a step keeps the balance where it does so for
  -- this worker and for what it takes from the queue and adds to the lists.
  module _ (s : Pool) (left right : List Phase) (p q : Phase) (e : s.workers ≡ left ++ (p ∷ right))
      (queue failed_files written : List Text) (unfinished : ℕ) where
    moved-Balanced :
        ((w : Text → ℕ)
          → total w queue + unwritten w q + total w written
            ≡ total w s.queue + unwritten w p + total w s.written)
        → ((w : Text → ℕ)
            → total w failed_files + total (if_failing run w) s.written + noted (if_failing run w) p
              ≡ total w s.failed_files
                + total (if_failing run w) written
                + noted (if_failing run w) q)
        → unfinished + length s.queue + is_busy p ≡ s.unfinished + length queue + is_busy q
        → total (crashing run) written ≡ total (crashing run) s.written
        → dead one q + dead (crashing run) p ≡ dead one p + dead (crashing run) q
        → Balanced run names s
        → Balanced run names (record s {
          queue = queue;
          workers = left ++ (q ∷ right);
          failed_files = failed_files;
          written = written;
          unfinished = unfinished;
        })
    moved-Balanced places notes counts wholes crashes b =
        let moved : (f : Phase → ℕ) → over f (left ++ (q ∷ right)) + f p ≡ over f s.workers + f q =
          λ f. over-moved f s.workers left right p q e in
        record {
          placed = λ w. omega (arith, b.placed w, moved (unwritten w), places w);
          noted_failed =
              λ w. omega (arith, b.noted_failed w, moved (noted (if_failing run w)), notes w);
          counted = omega (arith, b.counted, moved is_busy, counts);
          written_whole = wholes ∙ b.written_whole;
          dead_crashing =
              omega
                (arith, b.dead_crashing, moved (dead one), moved (dead (crashing run)), crashes);
        }

  Step-Balanced : (s t : Pool) → Step max_task run s t → Balanced run names s → Balanced run names t
  Step-Balanced _ _ (put s name rest e room) b = record {
    placed = λ w. omega (arith, b.placed w, ap (total w) e, total-snoc w s.queue name);
    noted_failed = b.noted_failed;
    counted = omega (arith, b.counted, length-snoc s.queue name);
    written_whole = b.written_whole;
    dead_crashing = b.dead_crashing;
  }
  Step-Balanced _ _ (get s name rest left right q e) b =
      moved-Balanced s left right idle (running name) e rest s.failed_files s.written s.unfinished
        (λ w. omega (arith, ap (total w) q)) (λ w. omega arith) (omega (arith, ap length q)) refl
        refl b
  Step-Balanced _ _ (communicate s name left right z e c) b =
      moved-Balanced s left right (running name) (ended name) e s.queue
        (note_end z name s.failed_files) s.written s.unfinished (λ w. omega arith)
        (λ w. omega (arith, total-note_end run w name z s.failed_files c)) (omega arith) refl refl b
  Step-Balanced _ _ (fail_start s name left right e c) b =
      moved-Balanced s left right (running name) (unstarted name) e s.queue s.failed_files s.written
        s.unfinished (λ w. omega arith) (λ w. omega arith) (omega arith) refl
        (rw (crashing, c) refl) b
  Step-Balanced _ _ (write s name left right z e c) b =
      let whole : crashing run name ≡ 0 = rw (crashing, c) refl in
      moved-Balanced s left right (ended name) (printed name) e s.queue s.failed_files
        (s.written ++ (name ∷ [])) s.unfinished (λ w. omega (arith, total-snoc w s.written name))
        (λ w. omega (arith, total-snoc (if_failing run w) s.written name)) (omega arith)
        (omega (arith, total-snoc (crashing run) s.written name)) refl b
  Step-Balanced _ _ (fail_decode s name left right z e c) b =
      moved-Balanced s left right (ended name) (undecoded name) e s.queue s.failed_files s.written
        s.unfinished (λ w. omega arith) (λ w. omega arith) (omega arith) refl
        (rw (crashing, c) refl) b
  Step-Balanced _ _ (task_done s name left right n e u) b =
      moved-Balanced s left right (printed name) idle e s.queue s.failed_files s.written n
        (λ w. omega arith) (λ w. omega arith) (omega (arith, u)) refl refl b

  pub Steps-Balanced :
      (n : ℕ) (s : Pool) → Steps max_task run (start_pool max_task names) n s → Balanced run names s
  Steps-Balanced _ _ here = start_pool-Balanced
  Steps-Balanced _ _ (more {n} {t} {u} before step) =
      Step-Balanced t u step (Steps-Balanced n t before)
