-- ===== src/ClangTidy/Main.antt =====
-- `main` of tools/run-clang-tidy.py from the parsed arguments to the exit status, but for Ctrl-C.
pub mod Files
pub mod Names
pub mod Stops
pub mod Success
pub mod Returns
use for_montee.Base.{
  is_zero_ℤ, ℕ, zero, suc, ◌≡◌, ℤ, pos, Bool, true, false, not, ◌&&◌, ◌||◌, List, [], ◌∷◌, ◌++◌,
  keep, Option, none, some, Text, codes, contains, join, length, is_empty, path_join, if◌then◌else◌,
}
use for_montee.ClangTidy.Host.{
  Entry, Options, Host, Ending, Stage, reached, ended, out_of_fuel, ◌>>=◌, fail_with, or_fail,
  Temporary, tmpdir_of,
}
use for_montee.ClangTidy.Command.{
  TidyArgs, get_tidy_invocation, Binary, binary, system_exit, find_binary, apply_invocation,
}
use for_montee.ClangTidy.Locate.{Located, located, exited, find_compilation_database, make_absolute}
use for_montee.ClangTidy.Workers.{Ran, Pool, start_pool, Steps, Joined}
use for_montee.ClangTidy.Fixes.{
  Content, Merged, raised, merge_replacement_files, Attempted, skipped, succeeded, failed,
  exit_code,
}

abbrev pub db_path : Text
db_path = codes "compile_commands.json"

abbrev pub from_located : Option Located → Stage Text
from_located none = out_of_fuel
from_located (some (located d)) = reached d
from_located (some exited) = fail_with none

abbrev pub from_binary : Binary → Stage Text
from_binary (binary path) = reached path
from_binary system_exit = fail_with none

-- The file of an entry; none is the `KeyError`.
unfoldable pub entry_path : Entry → Option Text
unfolding make_absolute
entry_path e = elim e.file [
  | none ↦ none
  | some f ↦ elim e.directory [ none ↦ none | some directory ↦ some (make_absolute f directory) ]
]

abbrev pub with_path : Option Text → Option (List Text) → Option (List Text)
with_path (some p) (some ps) = some (p ∷ ps)
with_path _ _ = none

unfoldable pub entry_paths : List Entry → Option (List Text)
unfolding entry_path
entry_paths [] = some []
entry_paths (e ∷ es) = with_path (entry_path e) (entry_paths es)

-- What a set has of a list: each text once.
abbrev pub unique : List Text → List Text
unique [] = []
unique (x ∷ xs) = let rest = unique xs in if contains xs x then rest else x ∷ rest

-- What is known before the threads are started; `files` are the paths of all entries.
pub record Ready : Type 0 where
  pub build_path : Text
  pub clang_tidy_binary : Text
  pub temporary : Option Temporary
  pub files : List Text
  pub file_name_re : Text → Bool
  pub max_task : ℤ

module _ {D : Type 0} (h : Host D) (o : Options) where
  -- The path of the working directory bounds the search.
  unfoldable pub find_build_path : Stage Text
  unfolding find_compilation_database
  find_build_path = elim o.build_path [
    | some path ↦ reached path
    | none ↦ from_located (
        find_compilation_database h.isfile h.realpath (suc (length (h.realpath (codes "./"))))
          db_path)
  ]

  -- `yaml and args.export_fixes`
  abbrev pub exports : Bool
  exports = h.has_yaml && not (is_empty o.export_fixes)

  unfoldable pub make_temporary : Text → Stage (Option Temporary)
  unfolding find_binary
  make_temporary build_path =
      if o.fix || exports
      then (do
        path ← from_binary (
            find_binary h.which o.clang_apply_replacements_binary (codes "clang-apply-replacements")
              build_path)
        tmpdir ← or_fail none h.mkdtemp
        reached (some (record { tmpdir = tmpdir; clang_apply_replacements_binary = path })))
      else reached none

  -- The call that shows if clang-tidy can be run; any exception leads to `sys.exit(1)`.
  unfoldable pub try_clang_tidy : Text → Text → Option Text → Stage (Unit {0})
  unfolding get_tidy_invocation
  try_clang_tidy build_path path left =
      if h.check_call (
        get_tidy_invocation [] path o.tidy none build_path
        ++ (codes "-list-checks" ∷ codes "-" ∷ []))
      then reached tt
      else fail_with left

  unfoldable pub load_files : Text → Option Text → Stage (List Text)
  unfolding entry_paths path_join
  load_files build_path left = do
    database ← or_fail left (h.load (path_join build_path db_path))
    or_fail left (entry_paths database)

  abbrev pub max_task_of : ℤ
  max_task_of = if is_zero_ℤ o.j then pos h.cpu_count else o.j

  -- `main` until the threads are started.
  unfoldable pub prepare : Stage Ready
  unfolding find_build_path make_temporary try_clang_tidy load_files find_binary join
  prepare = do
    build_path ← find_build_path
    path ← from_binary (find_binary h.which o.clang_tidy_binary (codes "clang-tidy") build_path)
    temporary ← make_temporary build_path
    unit ← try_clang_tidy build_path path (tmpdir_of temporary)
    files ← load_files build_path (tmpdir_of temporary)
    file_name_re ← or_fail (tmpdir_of temporary) (h.compile (join (codes "|") o.files))
    reached (record {
      build_path = build_path;
      clang_tidy_binary = path;
      temporary = temporary;
      files = files;
      file_name_re = file_name_re;
      max_task = max_task_of;
    })

  -- What `main` puts in the queue.
  unfoldable pub names : Ready → List Text
  names r = keep r.file_name_re (h.order (unique r.files))

  export_name : Option Temporary → Text → Option Text
  export_name none name = none
  export_name (some t) name = some (h.mkstemp t.tmpdir name)

  -- What a thread runs on a name.
  unfoldable pub run_of : Ready → Text → Ran
  unfolding get_tidy_invocation export_name
  run_of r name = h.clang_tidy (
      get_tidy_invocation name r.clang_tidy_binary o.tidy (export_name r.temporary name)
        r.build_path)

  abbrev pub attempted : Bool → Attempted
  attempted true = succeeded
  attempted false = failed

  -- The file is written where no exception was raised before.
  abbrev pub write_merged : Merged D → Attempted
  write_merged raised = failed
  write_merged merged = attempted (h.write_file o.export_fixes merged)

  -- Without a directory, which `exports` and `fix` rule out, there is an exception in the `try`.
  unfoldable pub export_all : Option Temporary → Attempted
  unfolding merge_replacement_files
  export_all none = if exports then failed else skipped
  export_all (some t) =
      if exports then write_merged (merge_replacement_files (h.replacements t.tmpdir)) else skipped

  unfoldable pub fix_all : Option Temporary → Attempted
  unfolding apply_invocation
  fix_all none = if o.fix then failed else skipped
  fix_all (some t) =
      if o.fix
      then attempted
          (h.call (apply_invocation t.clang_apply_replacements_binary o.format o.style t.tmpdir))
      else skipped

  -- `shutil.rmtree(tmpdir)` and `sys.exit(return_code)`
  abbrev pub leave : Option Temporary → ℕ → Ending
  leave none code = record { status = code; left = none }
  leave (some t) code =
      if h.rmtree t.tmpdir
      then record { status = code; left = none }
      else record { status = 1; left = some t.tmpdir }

  -- `main` behind the join.
  unfoldable pub finish : Ready → Pool → Ending
  unfolding exit_code export_all fix_all
  finish r s = leave r.temporary (exit_code (export_all r.temporary) (fix_all r.temporary) s)

  -- How `main` can end: before the threads are started, or behind the join, to which any order of
  -- the steps of the threads leads.
  pub data Runs : Ending → Type 0 where
    stops : (e : Ending) → prepare ≡ ended e → Runs e
    finishes :
        (r : Ready) (n : ℕ) (s : Pool)
        → prepare ≡ reached r
        → Steps r.max_task (run_of r) (start_pool r.max_task (names r)) n s
        → Joined s
        → Runs (finish r s)
