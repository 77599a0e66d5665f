-- ===== src/Tests/IwyuTool.antt =====
-- tools/iwyu_tool.py
use Prim.Native.String.{String}
use mathlib.Core.List.{Perm}
use for_montee.Base.{
  Bool, ◌==◌, ℕ, zero, suc, ◌≤◌, ◌≡◌, ◌↔◌, inl, refl, ℤ, pos, negsuc, true, false, List, [], ◌∷◌,
  ◌++◌, Option, none, some, Text, codes, length, take, arith, rstrip,
}
use for_montee.IwyuTool.WinSplit.{win_split, slashes, split_chars}
use for_montee.IwyuTool.WinSplit.Quote.{command_line, present, win_split-command_line}
use for_montee.IwyuTool.WinSplit.Trailing.{win_split_trailing}
use for_montee.IwyuTool.Execute.{Invocation, Process, Run, Execution, execute, start_state}
use for_montee.IwyuTool.Execute.Ending.{future}
use for_montee.Base.{◌-◌}
use for_montee.IwyuTool.Execute.{one_round, launch_all, startable}
use for_montee.IwyuTool.Execute.NegativeJobs.{execute_negative_jobs}
use for_montee.IwyuTool.Execute.NoJobs.{execute_no_jobs}
use for_montee.IwyuTool.Execute.Pending.{rounds, rounds-pending}
use for_montee.IwyuTool.Execute.Sequential.{sequential, execute-sequential}
use for_montee.IwyuTool.Execute.Reports.{execute-Reported, Result}
use for_montee.IwyuTool.Paths.{Platform, sep, normcase, is_subpath_of}
use for_montee.IwyuTool.Paths.Lineage.{Lineage, is_subpath_of_iff}
use for_montee.Tests.Loads.{falling, falling-IsLawful}

abbrev arguments : List Text
arguments = codes "a b" ∷ [] ∷ codes "say \"hi\\\"" ∷ codes "c:\\dir\\" ∷ []

win_split_runs :
    win_split (codes "cl.exe  \"a b\"c \\\\\"x\\\"\" d\\e")
    ≡ codes "cl.exe" ∷ codes "a bc" ∷ codes "\\x\"" ∷ codes "d\\e" ∷ []
unfolding win_split
win_split_runs = refl

win_split-command_line_example : win_split (command_line arguments) ≡ present arguments
win_split-command_line_example = win_split-command_line arguments

-- The last argument, a single backslash, is lost.
trailing_lost : win_split (codes "foo \\") ≡ codes "foo" ∷ []
unfolding win_split
trailing_lost = refl

win_split_trailing_example :
    win_split (codes "foo" ++ (b' ' ∷ slashes 1)) ≡ win_split (codes "foo" ++ (b' ' ∷ []))
unfolding split_chars
win_split_trailing_example = win_split_trailing (codes "foo") 1 refl

abbrev invocation : String → Invocation
invocation name = record { command = codes "iwyu" ∷ codes name ∷ []; cwd = codes "/b" }

abbrev three : List Invocation
three = invocation "a.cc" ∷ invocation "b.cc" ∷ invocation "c.cc" ∷ []

-- The first process runs longest and is killed, the second fails.
abbrev pub processes : ℕ → Invocation → Process
processes n i = choose n
  where
    choose : ℕ → Process
    choose zero = record { polls = 5; output = codes "A"; returncode = negsuc 10 }
    choose (suc zero) = record { polls = 1; output = codes "B"; returncode = pos 2 }
    choose _ = record { polls = 0; output = codes "C"; returncode = pos 0 }

abbrev pub run_with : ℤ → Run
run_with jobs = record {
  starts = λ n i. true;
  launch = processes;
  formatter = λ output. some output;
  verbose = true;
  jobs = jobs;
  loads = falling;
  max_load_average = pos 4;
}

abbrev finished : Option Execution → Option (ℤ × List Text × ℕ)
finished none = none
finished (some t) = some (t.exit_code, t.printed, t.round)

-- The load lets one process start at first; the outputs come in the order of the ends.
execute_runs :
    finished (execute (run_with (pos 2)) 20 three)
    ≡ some (pos 2, codes "B" ∷ codes "C" ∷ codes "A" ∷ [], 7)
unfolding execute
execute_runs = refl

execute_runs_one :
    finished (execute (run_with (pos 1)) 0 three)
    ≡ some (pos 2, codes "A" ∷ codes "B" ∷ codes "C" ∷ [], 0)
unfolding execute
execute_runs_one = refl

abbrev ended_by : Option Execution → Option (Bool × Bool × ℕ)
ended_by none = none
ended_by (some t) = some (t.raised, t.start_failed, t.launched)

-- Only the first process can be started.
abbrev broken : ℤ → Run
broken jobs = record (run_with jobs) { starts = λ n i. n == 0 }

execute_runs_broken : ended_by (execute (broken (pos 2)) 20 three) ≡ some (true, true, 1)
unfolding execute
execute_runs_broken = refl

execute_runs_one_broken : ended_by (execute (broken (pos 1)) 0 three) ≡ some (true, true, 1)
unfolding execute
execute_runs_one_broken = refl

execute-Reported_example :
    (t : Execution) × (execute (run_with (pos 2)) 13 three ≡ some t)
    × Result (run_with (pos 2)) three t
unfolding future
execute-Reported_example =
    execute-Reported (run_with (pos 2)) 2 13 three falling-IsLawful refl (omega arith) (omega arith)

execute-sequential_example :
    (t : Execution) × (u : Execution) × (execute (run_with (pos 2)) 13 three ≡ some t)
    × (execute (sequential (run_with (pos 2))) 13 three ≡ some u)
    × (t.raised ≡ u.raised)
    × (t.raised ≡ false → Perm t.printed u.printed × (t.exit_code ≡ u.exit_code))
unfolding future
execute-sequential_example =
    execute-sequential (run_with (pos 2)) 2 13 three falling-IsLawful refl (omega arith)
      (omega arith)

rounds-pending_example : length (rounds (run_with (pos 2)) 3 (start_state three)).pending ≤ 2
rounds-pending_example =
    rounds-pending (run_with (pos 2)) 2 falling-IsLawful refl (omega arith) 3 three

-- A round starts the first two of three invocations at once; the last one is never started.
execute_negative_jobs_example :
    ((one_round (run_with (negsuc 0)) (start_state three)).pending
      ≡ launch_all
          (run_with (negsuc 0))
          0
          (startable (run_with (negsuc 0)) 0 (take (length three - 1) three)))
    × ((t : Execution) → execute (run_with (negsuc 0)) 1000 three ≡ some t → t.raised ≡ true)
execute_negative_jobs_example =
    execute_negative_jobs (run_with (negsuc 0)) 0 1000 (invocation "a.cc")
      (invocation "b.cc" ∷ invocation "c.cc" ∷ []) falling-IsLawful refl

execute_no_jobs_example : execute (run_with (pos 0)) 1000 three ≡ none
execute_no_jobs_example =
    execute_no_jobs (run_with (pos 0)) 1000 (invocation "a.cc")
      (invocation "b.cc" ∷ invocation "c.cc" ∷ []) falling-IsLawful refl

abbrev linux : Platform
linux = record { windows = false; lower = λ s. s }

siblings : is_subpath_of linux (codes "/a/b/c/file.cpp") (codes "/a/b/c/file") ≡ false
unfolding is_subpath_of
siblings = refl

is_subpath_of_iff_example :
    (is_subpath_of linux (codes "/a/b/c") (codes "/a/b") ≡ true)
    ↔ Lineage (sep linux) (normcase linux (codes "/a/b/c")) (normcase linux (codes "/a/b"))
unfolding normcase rstrip
is_subpath_of_iff_example = is_subpath_of_iff linux (codes "/a/b/c") (codes "/a/b") (inl refl)
