-- ===== src/IwyuTool/Bootstrap.antt =====
-- `_bootstrap` of tools/iwyu_tool.py: the command line is split, the driver's part is parsed, and
-- `main` is called.
pub mod Forwarding
use for_montee.Base.{ℕ, Bool, List, [], ◌∷◌, Option, Text}
use for_montee.IwyuTool.Execute.{Invocation, Process, Loads, Run}
use for_montee.IwyuTool.Database.{partition_args}
use for_montee.IwyuTool.Main.{formatters, Machine, Ended, main}
use for_montee.IwyuTool.Options.{DriverArgs, Numbers, iwyu_args}
use for_montee.Argparse.{Parsed, parsed, system_exit, untyped}

-- The system, and what becomes of the processes.
pub record Script : Type 1 where
  pub machine : Machine
  pub loads : Loads
  pub starts : ℕ → Invocation → Bool
  pub launch : ℕ → Invocation → Process
  pub linesep : Text
  pub executable : Option Text
  pub numbers : Numbers loads

abbrev pub argv_of : List Text → List Text
argv_of [] = []
argv_of (prog ∷ argv) = argv

module _ (s : Script) where
  -- The parameters of `main` that `execute` reads.
  abbrev pub run_of : DriverArgs s.loads → Run
  run_of a = record {
    starts = s.starts;
    launch = s.launch;
    formatter = formatters s.linesep a.output_format;
    verbose = a.verbose;
    jobs = a.jobs;
    loads = s.loads;
    max_load_average = a.load;
  }

  abbrev dispatch : ℕ → Parsed (DriverArgs s.loads) → List Text → Parsed Ended
  dispatch fuel (parsed a) extra_args =
      parsed (main s.machine (run_of a) fuel s.executable a.dbpath a.source extra_args)
  dispatch fuel (system_exit status) extra_args = system_exit status
  dispatch fuel untyped extra_args = untyped

  unfoldable pub bootstrap : ℕ → List Text → Parsed Ended
  unfolding partition_args iwyu_args main
  bootstrap fuel sys_argv =
      let (argv, extra_args) = partition_args (argv_of sys_argv) in
      dispatch fuel (iwyu_args s.loads s.numbers argv) extra_args
