-- ===== src/IwyuTool/Execute.antt =====
-- `execute` of tools/iwyu_tool.py: starts the invocations, at most `jobs` at a time, and collects
-- their output. A subprocess is what `launch` says of the n-th start: the number of polls at which
-- it still runs, its output and its return code; a start may raise an `OSError` instead.
pub mod Capacity
pub mod Rounds
pub mod Pending
pub mod Ending
pub mod NoJobs
pub mod NegativeJobs
pub mod Fates
pub mod InTurn
pub mod Balance
pub mod Reports
pub mod Sequential
pub mod ExitCode
use for_montee.Base.{
  ℕ, zero, suc, ◌+◌, ◌-◌, ◌==◌, ◌≡◌, ◌<◌, ℤ, pos, negsuc, sub_count, max_ℤ, slice_to, slice_from,
  Bool, true, false, not, ◌&&◌, ◌||◌, List, [], ◌∷◌, ◌++◌, map, Option, none, some, Text, codes,
  join, length, keep, is_empty, if◌then◌else◌,
}

-- `Invocation`
pub record Invocation : Type 0 where
  pub command : List Text
  pub cwd : Text

-- `Invocation.__str__`
unfoldable pub to_str : Invocation → Text
to_str i = join (codes " ") i.command

-- `Process`: `polls` is how often `poll` still answers `None`.
pub record Process : Type 0 where
  pub polls : ℕ
  pub output : Text
  pub returncode : ℤ

-- The floating-point numbers of `--load`, and the readings of `os.getloadavg()[0]`.
pub record Loads : Type 1 where
  pub Float : Type 0
  pub is_positive : Float → Bool
  pub below_zero : Float → Bool
  pub minus : Float → Float → Float
  pub below : Float → ℤ → Bool
  pub trunc : Float → ℤ
  pub loadavg : ℕ → Float

-- `int(x)` of `0 <= x < c` is a natural number below c.
pub record IsLawful (L : Loads) : Type 0 where
  pub trunc_bounds :
      (x : L.Float) (c : ℤ)
      → L.below_zero x ≡ false
      → L.below x c ≡ true
      → (n k : ℕ) × (L.trunc x ≡ pos n) × (c ≡ pos k) × (n < k)

-- The arguments of `execute` but the invocations, and what it meets outside.
pub record Run : Type 1 where
  -- `Process.start` gives a process, where it raises no `OSError`
  pub starts : ℕ → Invocation → Bool
  -- what becomes of that process
  pub launch : ℕ → Invocation → Process
  -- `none` where the formatter raises an exception
  pub formatter : Text → Option Text
  pub verbose : Bool
  pub jobs : ℤ
  pub loads : Loads
  pub max_load_average : loads.Float

-- The variables of `execute`, what it has printed, the numbers of starts and of rounds, whether an
-- exception has ended it, and whether that is the `OSError` of a start.
pub record Execution : Type 0 where
  pub exit_code : ℤ
  pub invocations : List Invocation
  pub pending : List Process
  pub printed : List Text
  pub traced : List Text
  pub launched : ℕ
  pub round : ℕ
  pub raised : Bool
  pub start_failed : Bool

abbrev pub start_state : List Invocation → Execution
start_state invocations = record {
  exit_code = pos 0;
  invocations = invocations;
  pending = [];
  printed = [];
  traced = [];
  launched = 0;
  round = 0;
  raised = false;
  start_failed = false;
}

-- `poll() is not None`
abbrev pub has_exited : Process → Bool
has_exited p = p.polls == 0

abbrev pub tick : Process → Process
tick p = record p { polls = p.polls - 1 }

abbrev pub complete : List Process → List Process
complete = keep has_exited

-- What is left in `pending` when the completed processes are removed.
abbrev pub running : List Process → List Process
running ps = map tick (keep (λ p. not (has_exited p)) ps)

-- `int(load_capacity)`, raised to one where `pending` is empty.
abbrev pub load_limited : ℤ → Bool → ℤ
load_limited (pos zero) true = pos 1
load_limited load_capacity idle = load_capacity

abbrev is_positive_ℤ : ℤ → Bool
is_positive_ℤ (pos (suc n)) = true
is_positive_ℤ z = false

abbrev pub is_one : ℤ → Bool
is_one (pos n) = n == 1
is_one (negsuc n) = false

module _ (r : Run) where
  -- `print(formatter(proc.get_output()))` and the update of the exit code.
  unfoldable pub report : Execution → Process → Execution
  report s p = elim (r.formatter p.output) [
    | none ↦ record s { raised = true }
    | some text ↦ record s {
      exit_code = max_ℤ s.exit_code p.returncode;
      printed = s.printed ++ (text ∷ []);
    }
  ]

  unfoldable pub collect : Execution → List Process → Execution
  unfolding report
  collect s [] = s
  collect s (p ∷ ps) = let t = report s p in let rest = collect t ps in if t.raised then t else rest

  -- `capacity` of a round with `n` pending processes.
  unfoldable pub capacity : ℕ → ℕ → ℤ
  capacity round n =
      let room = sub_count r.jobs n in
      let free = r.loads.minus r.max_load_average (r.loads.loadavg round) in
      let idle = n == 0 in
      if not (r.loads.is_positive r.max_load_average)
      then room
      else if r.loads.below_zero free
      then (if is_positive_ℤ room then load_limited (pos 0) idle else room)
      else if r.loads.below free room
      then load_limited (r.loads.trunc free) idle
      else room

  -- The processes that `i.start(verbose)` gives, in order, from the n-th start on.
  unfoldable pub launch_all : ℕ → List Invocation → List Process
  launch_all n [] = []
  launch_all n (i ∷ is) = r.launch n i ∷ launch_all (n + 1) is

  abbrev pub trace : List Invocation → List Text
  trace is = if r.verbose then map (λ i. codes "# " ++ to_str i) is else []

  -- One of the starts raises an exception.
  unfoldable pub any_fails : ℕ → List Invocation → Bool
  any_fails n [] = false
  any_fails n (i ∷ is) = not (r.starts n i) || any_fails (n + 1) is

  -- The invocations that are started before the first that cannot be, and these with that one,
  -- which has been printed.
  unfoldable pub startable : ℕ → List Invocation → List Invocation
  startable n [] = []
  startable n (i ∷ is) = let rest = startable (n + 1) is in if r.starts n i then i ∷ rest else []

  unfoldable pub tried : ℕ → List Invocation → List Invocation
  tried n [] = []
  tried n (i ∷ is) = let rest = tried (n + 1) is in if r.starts n i then i ∷ rest else i ∷ []

  -- `pending.extend(...)` where a start raises an exception.
  unfoldable pub fail_start : Execution → List Invocation → Execution
  unfolding launch_all startable tried
  fail_start s starting =
      let started = startable s.launched starting in
      record s {
        pending = s.pending ++ launch_all s.launched started;
        traced = s.traced ++ trace (tried s.launched starting);
        launched = s.launched + length started;
        raised = true;
        start_failed = true;
      }

  -- `pending.extend(...)` and the rest of the invocations.
  unfoldable pub schedule : Execution → ℤ → Execution
  unfolding launch_all any_fails fail_start
  schedule s capacity =
      let starting = slice_to capacity s.invocations in
      if any_fails s.launched starting then fail_start s starting else record s {
        invocations = slice_from capacity s.invocations;
        pending = s.pending ++ launch_all s.launched starting;
        traced = s.traced ++ trace starting;
        launched = s.launched + length starting;
      }

  -- The body of the `while` loop.
  unfoldable pub one_round : Execution → Execution
  unfolding collect capacity schedule
  one_round s =
      let left = running s.pending in
      let t = collect s (complete s.pending) in
      if t.raised
      then t
      else schedule (record t { pending = left; round = s.round + 1 })
          (capacity s.round (length left))

  -- The `while` loop; `none` means that the fuel ran out.
  unfoldable pub execute_loop : ℕ → Execution → Option Execution
  unfolding one_round
  execute_loop zero s = none
  execute_loop (suc fuel) s =
      let rest = execute_loop fuel (one_round s) in
      if s.raised
      then some s
      else if is_empty s.invocations && is_empty s.pending
      then some s
      else rest

  -- The `for` loop of `jobs == 1`, which waits for each process in turn.
  unfoldable pub execute_one : Execution → List Invocation → Execution
  unfolding report
  execute_one s [] = record s { invocations = [] }
  execute_one s (i ∷ is) =
      let started = record s { traced = s.traced ++ trace (i ∷ []); launched = s.launched + 1 } in
      let t = report started (r.launch s.launched i) in
      let rest = execute_one t is in
      let failed = record s {
        traced = s.traced ++ trace (i ∷ []);
        raised = true;
        start_failed = true;
      } in
      if not (r.starts s.launched i) then failed else if t.raised then t else rest

  unfoldable pub execute : ℕ → List Invocation → Option Execution
  unfolding execute_loop execute_one
  execute fuel invocations =
      let s = start_state invocations in
      if is_one r.jobs then some (execute_one s invocations) else execute_loop fuel s
