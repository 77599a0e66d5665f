-- ===== src/IwyuTool/Main/Forms.antt =====
-- `main` of tools/iwyu_tool.py on a database whose commands have the form of a list or of a line.
use for_montee.Base.{◌≡◌, refl, ap, true, List, [], ◌∷◌, map, Option, none, some, Text, All, ℕ}
use for_montee.IwyuTool.Execute.{Run}
use for_montee.IwyuTool.Database.{
  Entry, Result, ok, err, ◌>>=◌, slice_compilation_db, invocations_of,
}
use for_montee.IwyuTool.Database.Alike.{
  Both, Alikes, fixup_compilation_db-Alikes, slice_compilation_db-Alikes, invocations_of-Alikes,
}
use for_montee.IwyuTool.Database.Quoted.{NonEmpty, listed, quoted, command_of-quoted}
use for_montee.IwyuTool.Main.{Machine, entries, prepared, executed, main}

-- An entry, and the arguments of its command.
pub record Source : Type 0 where
  pub entry : Entry
  pub arguments : List Text

abbrev pub as_lists : List Source → List Entry
as_lists = map (λ s. listed s.entry s.arguments)

abbrev pub as_lines : List Source → List Entry
as_lines = map (λ s. quoted s.entry s.arguments)

module _ (m : Machine) (windows : m.system.platform.windows ≡ true) where
  as_lines-Alikes :
      (sources : List Source)
      → All (λ s. NonEmpty s.arguments) sources
      → Alikes m.system (as_lines sources) (as_lists sources)
  as_lines-Alikes [] h = tt
  as_lines-Alikes (s ∷ sources) h = (
    record {
      files = refl;
      directories = refl;
      commands = command_of-quoted m.system s.entry s.arguments windows h.0;
    },
    as_lines-Alikes sources h.1,
  )

  selected-Alikes :
      (executable : Text) (source_files extra_args : List Text) (a b : Result (List Entry))
      → Both (Alikes m.system) a b
      → (a >>= λ fixed.
          invocations_of m.system executable extra_args
            (slice_compilation_db m.system fixed source_files).new_db)
        ≡ (b >>= λ fixed.
            invocations_of m.system executable extra_args
              (slice_compilation_db m.system fixed source_files).new_db)
  selected-Alikes executable source_files extra_args (ok a) (ok b) h =
      invocations_of-Alikes m.system executable extra_args _ _
        (slice_compilation_db-Alikes m.system a b source_files h)
  selected-Alikes executable source_files extra_args (err e) (err f) h = ap err h
  selected-Alikes executable source_files extra_args (ok a) (err e) h = absurd h
  selected-Alikes executable source_files extra_args (err e) (ok a) h = absurd h

  -- Both give the same invocations, or raise the same exception.
  prepared-as_lines :
      (executable : Text) (source_files extra_args : List Text) (sources : List Source)
      → All (λ s. NonEmpty s.arguments) sources
      → prepared m executable source_files extra_args (as_lines sources)
        ≡ prepared m executable source_files extra_args (as_lists sources)
  unfolding prepared
  prepared-as_lines executable source_files extra_args sources h =
      selected-Alikes executable source_files extra_args _ _
        (fixup_compilation_db-Alikes m.system _ _ (as_lines-Alikes sources h))

-- The machine on which a database is read.
abbrev pub with_database : Machine → List Entry → Machine
with_database m db = record m { load = λ path. entries db }

-- On Windows, `main` ends in the same way on a database that gives each command as a list of
-- arguments, none of them empty, and on one that gives it as a line in which they are quoted by the
-- rules.
pub main-as_lines :
    (m : Machine) (r : Run) (fuel : ℕ) (executable : Option Text) (path : Text)
    (source_files extra_args : List Text) (sources : List Source)
    → m.system.platform.windows ≡ true
    → All (λ s. NonEmpty s.arguments) sources
    → main (with_database m (as_lines sources)) r fuel executable path source_files extra_args
      ≡ main (with_database m (as_lists sources)) r fuel executable path source_files extra_args
unfolding main prepared
main-as_lines m r fuel none path source_files extra_args sources windows h = refl
main-as_lines m r fuel (some []) path source_files extra_args sources windows h = refl
main-as_lines m r fuel (some (c ∷ cs)) path source_files extra_args sources windows h =
    ap (executed m r fuel) (prepared-as_lines m windows (c ∷ cs) source_files extra_args sources h)
