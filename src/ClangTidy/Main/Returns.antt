-- ===== src/ClangTidy/Main/Returns.antt =====
-- tools/run-clang-tidy.py comes to an end.
use for_montee.Base.{
  ℕ, zero, suc, ◌+◌, ◌*◌, ◌<◌, ◌≤◌, ◌≡◌, refl, sym, subst, ◌∙◌, codes, join, inl, inr, ℤ, pos, List,
  [], ◌∷◌, Text, length, All, arith,
}
use for_montee.ClangTidy.Workers.{Ran, exits, Pool, start_pool, Step, Steps, here, more, Joined}
use for_montee.ClangTidy.Workers.Progress.{Exits, Steps-Joined}
use for_montee.ClangTidy.Command.{find_binary}
use for_montee.ClangTidy.Host.{
  Options, Host, Stage, reached, ended, out_of_fuel, ◌>>=◌, or_fail, tmpdir_of,
}
use for_montee.ClangTidy.Main.{
  from_binary, find_build_path, make_temporary, try_clang_tidy, load_files, max_task_of, Ready,
  prepare, names, run_of,
}

module _ (max_task : ℤ) (run : Text → Ran) where
  first_step :
      (s t u : Pool) (n : ℕ)
      → Step max_task run s t
      → Steps max_task run t n u
      → Steps max_task run s (suc n) u
  first_step s t _ _ step here = more here step
  first_step s t _ _ step (more {n} {t = v} {u = w} path last) =
      more (first_step s t v n step path) last

module _ (max_task : ℕ) (run : Text → Ran) (names : List Text) (some_thread : 0 < max_task)
    (all_exit : All (Exits run) names) where
  -- From any state that is reached, some steps lead to the return of the join.
  joins_from :
      (fuel n : ℕ) (s : Pool)
      → 5 * length names < n + fuel
      → Steps (pos max_task) run (start_pool (pos max_task) names) n s
      → (m : ℕ) × (t : Pool) × Steps (pos max_task) run s m t × Joined t
  joins_from zero n s h path =
      let (bound, next) = Steps-Joined max_task run names n s some_thread all_exit path in
      absurd (omega arith)
  joins_from (suc fuel) n s h path =
      elim (Steps-Joined max_task run names n s some_thread all_exit path).1 [
        | inl joined ↦ (0, s, here, joined)
        | inr (t, step) ↦
            let (m, u, rest, joined) = joins_from fuel (suc n) t (omega arith) (more path step) in
            (suc m, u, first_step (pos max_task) run s t u m step rest, joined)
      ]

All-Exits :
    (run : Text → Ran) (names : List Text)
    → ((name : Text) → Exits run name)
    → All (Exits run) names
All-Exits run [] e = tt
All-Exits run (name ∷ names) e = (e name, All-Exits run names e)

-- The number of threads does not depend on what is found before.
AsMany : ℤ → Stage Ready → Type 0
AsMany z (reached r) = r.max_task ≡ z
AsMany z _ = Unit

bind-AsMany :
    {A : Type 0} (z : ℤ) (m : Stage A) (f : A → Stage Ready)
    → ((a : A) → AsMany z (f a))
    → AsMany z (m >>= f)
unfolding AsMany
bind-AsMany z (reached a) f k = k a
bind-AsMany z (ended e) f k = tt
bind-AsMany z out_of_fuel f k = tt

module _ {D : Type 0} (h : Host D) (o : Options) where
  prepare-AsMany : AsMany (max_task_of h o) (prepare h o)
  unfolding prepare AsMany
  prepare-AsMany =
      let z = max_task_of h o in
      bind-AsMany z (find_build_path h o) _ (λ b.
        bind-AsMany z (from_binary (find_binary h.which o.clang_tidy_binary (codes "clang-tidy") b))
          _
          (λ path. bind-AsMany z (make_temporary h o b) _ (λ t.
            bind-AsMany z (try_clang_tidy h o b path (tmpdir_of t)) _ (λ u.
              bind-AsMany z (load_files h o b (tmpdir_of t)) _ (λ fs.
                bind-AsMany z (or_fail (tmpdir_of t) (h.compile (join (codes "|") o.files))) _
                  (λ re. refl))))))

  run_of-Exits :
      ((command : List Text) → (z : ℤ) × (h.clang_tidy command ≡ exits z))
      → (r : Ready) (name : Text) → Exits (run_of h o r) name
  unfolding run_of
  run_of-Exits fine r name = fine _

threads_end :
    (z : ℤ) (k : ℕ) (run : Text → Ran) (names : List Text) (n : ℕ) (s : Pool)
    → z ≡ pos (suc k)
    → All (Exits run) names
    → Steps z run (start_pool z names) n s
    → (n ≤ 5 * length names) × ((m : ℕ) × (t : Pool) × Steps z run s m t × Joined t)
threads_end z k run names n s e all path =
    let path' = subst (λ y. Steps y run (start_pool y names) n s) e path in
    let (m, t, rest, joined) =
      joins_from (suc k) run names (omega arith) all (5 * length names + 1) n s (omega arith)
        path' in
    (
      (Steps-Joined (suc k) run names n s (omega arith) all path').0,
      (m, t, subst (λ y. Steps y run s m t) (sym e) rest, joined),
    )

-- With at least one thread, by `-j` or by the number of processors, and where every run of
-- clang-tidy ends with a return code and an output that is text: once `main` has got ready, the
-- threads make at most five steps for each name, and whatever they have done can go on until the
-- join returns.
pub main_returns :
    {D : Type 0} (h : Host D) (o : Options) (k : ℕ) (r : Ready) (n : ℕ) (s : Pool)
    → max_task_of h o ≡ pos (suc k)
    → ((command : List Text) → (z : ℤ) × (h.clang_tidy command ≡ exits z))
    → prepare h o ≡ reached r
    → Steps r.max_task (run_of h o r) (start_pool r.max_task (names h o r)) n s
    → (n ≤ 5 * length (names h o r))
      × ((m : ℕ) × (t : Pool) × Steps r.max_task (run_of h o r) s m t × Joined t)
unfolding AsMany
main_returns h o k r n s threads fine p path =
    let as_many : r.max_task ≡ pos (suc k) =
      subst (AsMany (max_task_of h o)) p (prepare-AsMany h o) ∙ threads in
    let all = All-Exits (run_of h o r) (names h o r) (run_of-Exits h o fine r) in
    threads_end r.max_task k (run_of h o r) (names h o r) n s as_many all path
