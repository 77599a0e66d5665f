-- ===== src/Tests/ClangTidy.antt =====
-- tools/run-clang-tidy.py: a run of one thread on one file, and the search for the database.
use for_montee.Base.{
  ℕ, ◌+◌, ◌*◌, ◌≤◌, ◌<◌, inl, ◌≡◌, ◌↔◌, ◌⊎◌, refl, pos, negsuc, Bool, [], ◌∷◌, some, Text, codes,
  text_eq, length, All, arith,
}
use for_montee.ClangTidy.Workers.{
  idle, printed, undecoded, Ran, exits, not_text, fail_decode, Pool, start_pool, Step, put, get,
  communicate, write, task_done, Steps, here, more, Joined, note_end,
}
use for_montee.ClangTidy.Workers.Totals.{total, over, unwritten, is_busy}
use for_montee.ClangTidy.Workers.Joining.{Succeeds}
use for_montee.ClangTidy.Workers.Progress.{Steps-Joined}
use for_montee.ClangTidy.Workers.Refinement.{Handling, Handles, Steps-Handling}
use for_montee.ClangTidy.Workers.Crashes.{raising_never_joins}
use for_montee.ClangTidy.Workers.Bounds.{Steps-Bounded, task_done-unfinished}
use for_montee.ClangTidy.Workers.Negative.{negative_never_joins}
use for_montee.ClangTidy.Fixes.{
  skipped, failed, exit_code, merge_replacement_files, diagnostics, empty_content, dumped,
}
use for_montee.ClangTidy.Fixes.ExitCode.{IsFine, exit_code-Succeeds}
use for_montee.ClangTidy.Fixes.{Content, without_key, broken, raised}
use for_montee.ClangTidy.Fixes.Merge.{found, fixes, merge_replacement_files-found}
use for_montee.Base.{In, List, ◌≢◌, flatten, map}
use for_montee.ClangTidy.Locate.{Located, located, find_compilation_database, make_absolute}
use for_montee.ClangTidy.Locate.Nearest.{Nearest, find_compilation_database-Nearest}

abbrev name : Text
name = codes "a.cc"

-- clang-tidy fails on the file.
abbrev code : Text → Ran
code file = exits (pos 1)

abbrev start : Pool
start = start_pool (pos 1) (name ∷ [])

abbrev last : Pool
last = record start {
  waiting = [];
  unfinished = 0;
  workers = idle ∷ [];
  failed_files = name ∷ [];
  written = name ∷ [];
}

run : Steps (pos 1) code start 5 last
unfolding note_end
run =
    more
      (more
        (more (more (more here (put _ name [] refl (omega arith))) (get _ name [] [] [] refl refl))
          (communicate _ name [] [] (pos 1) refl refl))
        (write _ name [] [] (pos 1) refl refl))
      (task_done _ name [] [] 0 refl refl)

exit_code-Succeeds_example :
    (exit_code skipped failed last ≡ 0)
    ↔ (All (Succeeds code) (name ∷ []) × IsFine skipped × IsFine failed)
exit_code-Succeeds_example =
    exit_code-Succeeds (pos 1) code (name ∷ []) 5 last skipped failed run (refl, refl)

Steps-Joined_example :
    (5 ≤ 5 * length (name ∷ [])) × (Joined last ⊎ ((t : Pool) × Step (pos 1) code last t))
Steps-Joined_example = Steps-Joined 1 code (name ∷ []) 5 last (omega arith) ((pos 1, refl), tt) run

abbrev stuck : Pool
stuck = record (start_pool (negsuc 0) (name ∷ [])) {
  waiting = [];
  queue = name ∷ [];
  unfinished = 1;
}

negative_run : Steps (negsuc 0) code (start_pool (negsuc 0) (name ∷ [])) 1 stuck
negative_run = more here (put _ name [] refl tt)

negative_never_joins_example : ¬ Joined stuck
negative_never_joins_example = negative_never_joins 0 code name [] 1 stuck negative_run

Steps-Handling_example :
    (a : Handling) × Handles code (record { left = name ∷ []; written = [] }) a
    × (a.written ≡ last.written)
    × ((w : Text → ℕ)
        → total w a.left
          ≡ total w last.waiting + total w last.queue + over (unwritten w) last.workers)
    × (Joined last → a.left ≡ [])
Steps-Handling_example = Steps-Handling (pos 1) code (name ∷ []) 5 last run

-- The output of clang-tidy is no UTF-8.
abbrev latin : Text → Ran
latin file = not_text (pos 0)

abbrev dead : Pool
dead = record start { waiting = []; unfinished = 1; workers = undecoded name ∷ [] }

dead_run : Steps (pos 1) latin start 4 dead
unfolding note_end
dead_run =
    more
      (more (more (more here (put _ name [] refl (omega arith))) (get _ name [] [] [] refl refl))
        (communicate _ name [] [] (pos 0) refl refl))
      (fail_decode _ name [] [] (pos 0) refl refl)

raising_never_joins_example : ¬ Joined dead
raising_never_joins_example =
    raising_never_joins (pos 1) latin (name ∷ []) name 4 dead (inl refl) (λ z e. cc) dead_run

Steps-Bounded_example :
    (length dead.queue ≤ 1) × (over is_busy dead.workers ≤ 1) × (dead.unfinished ≤ 2 * 1)
Steps-Bounded_example = Steps-Bounded 1 latin (name ∷ []) 4 dead (omega arith) dead_run

abbrev written_one : Pool
written_one = record start {
  waiting = [];
  unfinished = 1;
  workers = printed name ∷ [];
  failed_files = name ∷ [];
  written = name ∷ [];
}

written_run : Steps (pos 1) code start 4 written_one
unfolding note_end
written_run =
    more
      (more (more (more here (put _ name [] refl (omega arith))) (get _ name [] [] [] refl refl))
        (communicate _ name [] [] (pos 1) refl refl))
      (write _ name [] [] (pos 1) refl refl)

task_done-unfinished_example : 0 < written_one.unfinished
task_done-unfinished_example =
    task_done-unfinished (pos 1) code (name ∷ []) 4 written_one name [] [] written_run refl

abbrev has_database : Text → Bool
has_database p = text_eq p (codes "/p/compile_commands.json")

find_runs :
    find_compilation_database has_database (λ p. codes "/p/q/r") 9 (codes "compile_commands.json")
    ≡ some (located (codes "/p"))
unfolding find_compilation_database
find_runs = refl

find_compilation_database-Nearest_example :
    (l : Located) × (find_compilation_database has_database
        (λ p. codes "/p/q/r")
        9
        (codes "compile_commands.json")
      ≡ some l)
    × Nearest has_database (codes "compile_commands.json") (codes "/p/q/r") l
find_compilation_database-Nearest_example =
    find_compilation_database-Nearest has_database (λ p. codes "/p/q/r") 9
      (codes "compile_commands.json") (omega arith)

make_absolute_runs : make_absolute (codes "../x/./a.cc") (codes "/p/build") ≡ codes "/p/x/a.cc"
unfolding make_absolute
make_absolute_runs = refl

merge_runs :
    merge_replacement_files {D = ℕ}
      (diagnostics (1 ∷ []) ∷ empty_content ∷ diagnostics (2 ∷ 3 ∷ []) ∷ [])
    ≡ dumped (1 ∷ 2 ∷ 3 ∷ [])
unfolding merge_replacement_files
merge_runs = refl

abbrev replacements : List (Content ℕ)
replacements = diagnostics (1 ∷ []) ∷ empty_content ∷ without_key ∷ diagnostics (2 ∷ 3 ∷ []) ∷ []

merge_replacement_files-found_example :
    (In broken replacements × (merge_replacement_files replacements ≡ raised))
    ⊎ ((¬ In broken replacements)
        × (merge_replacement_files replacements ≢ raised)
        × (fixes (merge_replacement_files replacements) ≡ flatten (map found replacements)))
merge_replacement_files-found_example = merge_replacement_files-found replacements
