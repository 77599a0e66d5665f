-- ===== src/IwyuTool/Main.antt =====
-- `main` of tools/iwyu_tool.py from its parameters to the exit code.
pub mod Exit
pub mod Formats
pub mod Forms
use for_montee.Base.{
  ℕ, ℤ, pos, Bool, true, false, List, [], ◌∷◌, Option, none, some, Text, codes, path_join,
  if◌then◌else◌,
}
use for_montee.IwyuTool.Formatter.{clang_formatter}
use for_montee.IwyuTool.Execute.{Invocation, Run, Execution, execute}
use for_montee.IwyuTool.Database.{
  Failure, Result, ok, err, System, Entry, ◌>>=◌, fixup_compilation_db, slice_compilation_db,
  invocations_of,
}

-- The keys of `FORMATTERS`, and `DEFAULT_FORMAT`.
pub data Format : Type 0 where
  iwyu clang : Format

abbrev pub default_format : Format
default_format = iwyu

-- `FORMATTERS`
unfoldable pub formatters : Text → Format → Text → Option Text
unfolding clang_formatter
formatters linesep iwyu output = some output
formatters linesep clang output = clang_formatter linesep output

-- What reading the database comes to. An entry is a dict; what `json.load` raises but `IOError` is
-- `value_error`.
pub data Loaded : Type 0 where
  entries : List Entry → Loaded
  io_error : Text → Loaded
  no_json : Loaded

-- The system, and its file system's `os.path.isdir` and contents.
pub record Machine : Type 0 where
  pub system : System
  pub isdir : Text → Bool
  pub load : Text → Loaded

-- How `main` ends: it returns an exit code, an exception escapes, or the fuel ran out.
pub data Ended : Type 0 where
  returned : ℤ → Ended
  escaped : Failure → Ended
  out_of_fuel : Ended

unfoldable pub database_path : Machine → Text → Text
unfolding path_join
database_path m path =
    m.system.realpath
      (if m.isdir path then path_join path (codes "compile_commands.json") else path)

unfoldable pub prepared :
    Machine → Text → List Text → List Text → List Entry → Result (List Invocation)
unfolding fixup_compilation_db slice_compilation_db invocations_of
prepared m executable source_files extra_args db = fixup_compilation_db m.system db >>= λ fixed.
    invocations_of m.system executable extra_args
      (slice_compilation_db m.system fixed source_files).new_db

-- An exception of the formatter is that of `clang_formatter`, and one of a start is an `OSError`.
abbrev pub ending : Option Execution → Ended
ending none = out_of_fuel
ending (some t) =
    if t.raised
    then escaped (if t.start_failed then Failure.os_error else Failure.attribute_error)
    else returned t.exit_code

module _ (m : Machine) (r : Run) (fuel : ℕ) where
  abbrev pub executed : Result (List Invocation) → Ended
  executed (ok invocations) = ending (execute r fuel invocations)
  executed (err e) = escaped e

  -- The first argument is `IWYU_EXECUTABLE`.
  unfoldable pub main : Option Text → Text → List Text → List Text → Ended
  unfolding database_path prepared execute
  main none compilation_db_path source_files extra_args = returned (pos 1)
  main (some []) compilation_db_path source_files extra_args = returned (pos 1)
  main (some (c ∷ cs)) compilation_db_path source_files extra_args =
      elim (m.load (database_path m compilation_db_path)) [
        | entries db ↦ executed (prepared m (c ∷ cs) source_files extra_args db)
        | io_error why ↦ returned (pos 1)
        | no_json ↦ escaped Failure.value_error
      ]
