-- ===== src/ClangTidy/Workers.antt =====
-- The threads of tools/run-clang-tidy.py: `run_tidy`, and the part of `main` that starts it, fills
-- the queue and waits. A step is one action of one thread; any order of steps can happen.
pub mod Totals
pub mod Balance
pub mod Threads
pub mod Joining
pub mod Measure
pub mod Progress
pub mod Negative
pub mod Crashes
pub mod Bounds
pub mod Refinement
use for_montee.Base.{
  ℕ, zero, suc, ◌+◌, ◌<◌, ◌≡◌, ℤ, pos, negsuc, Bool, true, false, List, [], ◌∷◌, ◌++◌, replicate,
  Option, none, some, Text, length, is_empty, if◌then◌else◌,
}

-- What comes of clang-tidy on a file: its return code, an exception before there is a process, or a
-- return code with an output or an error output that is no UTF-8.
pub data Ran : Type 0 where
  exits : ℤ → Ran
  not_started : Ran
  not_text : ℤ → Ran

-- What a worker does: it waits for a name, runs clang-tidy on it, has noted how that ended, or has
-- written the output and will call `task_done`. An exception ends the thread, before the end of
-- clang-tidy is noted or behind it.
pub data Phase : Type 0 where
  idle : Phase
  running ended printed : Text → Phase
  unstarted undecoded : Text → Phase

-- `waiting` are the names that `main` has not put, `unfinished` is the count of `task_done` that
-- the queue keeps, and `written` are the names whose output is written whole.
pub record Pool : Type 0 where
  pub waiting : List Text
  pub queue : List Text
  pub unfinished : ℕ
  pub workers : List Phase
  pub failed_files : List Text
  pub written : List Text

-- `range(max_task)` of a negative number is empty.
abbrev pub thread_count : ℤ → ℕ
thread_count (pos n) = n
thread_count (negsuc n) = zero

abbrev pub start_pool : ℤ → List Text → Pool
start_pool max_task names = record {
  waiting = names;
  queue = [];
  unfinished = 0;
  workers = replicate (thread_count max_task) idle;
  failed_files = [];
  written = [];
}

-- A queue of a size that is not positive is never full.
abbrev pub HasRoom : ℤ → List Text → Type 0
HasRoom (pos zero) queue = Unit
HasRoom (pos (suc n)) queue = length queue < suc n
HasRoom (negsuc n) queue = Unit

abbrev pub fails : ℤ → Bool
fails (pos zero) = false
fails _ = true

-- `if proc.returncode != 0: failed_files.append(name)`
unfoldable pub note_end : ℤ → Text → List Text → List Text
note_end returncode name failed_files =
    if fails returncode then failed_files ++ (name ∷ []) else failed_files

-- `proc.returncode`, where there is a process.
abbrev pub returncode : Ran → Option ℤ
returncode (exits z) = some z
returncode not_started = none
returncode (not_text z) = some z

-- `run` is clang-tidy on a file.
module _ (max_task : ℤ) (run : Text → Ran) where
  pub data Step : Pool → Pool → Type 0 where
    -- `task_queue.put(name)`, which waits for room
    put :
        (s : Pool) (name : Text) (names : List Text)
        → s.waiting ≡ name ∷ names
        → HasRoom max_task s.queue
        → Step s (record s {
          waiting = names;
          queue = s.queue ++ (name ∷ []);
          unfinished = s.unfinished + 1;
        })
    -- `queue.get()`, which waits for a name
    get :
        (s : Pool) (name : Text) (names : List Text) (left right : List Phase)
        → s.queue ≡ name ∷ names
        → s.workers ≡ left ++ (idle ∷ right)
        → Step s (record s { queue = names; workers = left ++ (running name ∷ right) })
    -- `proc.communicate()` and the test of the return code
    communicate :
        (s : Pool) (name : Text) (left right : List Phase) (z : ℤ)
        → s.workers ≡ left ++ (running name ∷ right)
        → returncode (run name) ≡ some z
        → Step s (record s {
          workers = left ++ (ended name ∷ right);
          failed_files = note_end z name s.failed_files;
        })
    -- `subprocess.Popen` raises an exception, or what makes the command does
    fail_start :
        (s : Pool) (name : Text) (left right : List Phase)
        → s.workers ≡ left ++ (running name ∷ right)
        → run name ≡ not_started
        → Step s (record s { workers = left ++ (unstarted name ∷ right) })
    -- what is done under the lock
    write :
        (s : Pool) (name : Text) (left right : List Phase) (z : ℤ)
        → s.workers ≡ left ++ (ended name ∷ right)
        → run name ≡ exits z
        → Step s (record s {
          workers = left ++ (printed name ∷ right);
          written = s.written ++ (name ∷ []);
        })
    -- `decode` raises an exception, and the lock is released
    fail_decode :
        (s : Pool) (name : Text) (left right : List Phase) (z : ℤ)
        → s.workers ≡ left ++ (ended name ∷ right)
        → run name ≡ not_text z
        → Step s (record s { workers = left ++ (undecoded name ∷ right) })
    -- `queue.task_done()`
    task_done :
        (s : Pool) (name : Text) (left right : List Phase) (n : ℕ)
        → s.workers ≡ left ++ (printed name ∷ right)
        → s.unfinished ≡ suc n
        → Step s (record s { workers = left ++ (idle ∷ right); unfinished = n })

  -- What a number of steps leads to.
  pub data Steps (s : Pool) : ℕ → Pool → Type 0 where
    here : Steps s 0 s
    more : {n : ℕ} {t u : Pool} → Steps s n t → Step t u → Steps s (suc n) u

-- All names are put, and `task_queue.join()` returns.
abbrev pub Joined : Pool → Type 0
Joined s = (s.waiting ≡ []) × (s.unfinished ≡ 0)

-- `return_code` behind the join.
unfoldable pub return_code : Pool → ℕ
return_code s = if is_empty s.failed_files then 0 else 1
