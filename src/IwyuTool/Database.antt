-- ===== src/IwyuTool/Database.antt =====
-- The compilation database of tools/iwyu_tool.py: `Invocation.from_compile_command`,
-- `fixup_compilation_db`, `slice_compilation_db`, and what reads the command line and the
-- environment: `split_command`, `find_include_what_you_use`, `partition_args`.
pub mod Slice
pub mod Commands
pub mod Search
pub mod Quoted
pub mod Alike
use for_montee.Base.{
  ℕ, Bool, true, false, not, ◌&&◌, List, [], ◌∷◌, ◌++◌, map, Option, none, some, Text, codes,
  text_eq, contains, is_empty, keep, isabs, path_join, split, if◌then◌else◌,
}
use for_montee.IwyuTool.Paths.{Platform, is_subpath_of, is_msvc_driver}
use for_montee.IwyuTool.WinSplit.{win_split}
use for_montee.IwyuTool.Execute.{Invocation}

-- The exceptions that escape: those of a database, and `AttributeError`, which is the formatter's.
pub data Failure : Type 0 where
  key_error value_error index_error attribute_error os_error : Failure

pub data Result {ℓ} (A : Type ℓ) : Type ℓ where
  ok : A → Result A
  err : Failure → Result A

-- What follows in the code is reached only without an exception.
infixl 5 ◌>>=◌
abbrev pub ◌>>=◌ {ℓ κ} : {B : Type κ} {A : Type ℓ} → Result A → (A → Result B) → Result B
err failure >>= next = err failure
ok value >>= next = next value

-- `entry[key]`
abbrev pub item {ℓ} : {A : Type ℓ} → Option A → Result A
item none = err key_error
item (some a) = ok a

-- What the script reads of a file system and of `shlex`.
pub record System : Type 0 where
  pub platform : Platform
  pub realpath : Text → Text
  pub exists_on_disk : Text → Bool
  pub isfile : Text → Bool
  -- `shlex.split`; none where it raises `ValueError`
  pub shlex_split : Text → Option (List Text)

-- An entry of the database, a dict in which a key may be missing.
pub record Entry : Type 0 where
  pub file : Option Text
  pub directory : Option Text
  pub arguments : Option (List Text)
  pub command : Option Text

abbrev pub value_of : Option (List Text) → Result (List Text)
value_of none = err value_error
value_of (some parts) = ok parts

unfoldable pub split_command : System → Text → Result (List Text)
unfolding win_split
split_command sys cmdstr =
    if sys.platform.windows then ok (win_split cmdstr) else value_of (sys.shlex_split cmdstr)

-- `entry['arguments']`, or `entry['command']` split.
unfoldable pub command_of : System → Entry → Result (List Text)
unfolding split_command
command_of sys e = elim e.arguments [
  | some parts ↦ ok parts
  | none ↦ elim e.command [ some cmdstr ↦ split_command sys cmdstr | none ↦ err value_error ]
]

abbrev pub known_compiler_wrappers : List Text
known_compiler_wrappers = codes "ccache" ∷ []

-- `command[0]` and `command[1:]`
abbrev pub uncons : List Text → Result (Text × List Text)
uncons [] = err index_error
uncons (c ∷ cs) = ok (c, cs)

-- The command without a compiler wrapper.
unfoldable pub unwrapped : List Text → Result (List Text)
unfolding contains
unwrapped command = uncons command >>= λ (first, rest).
    ok (if contains known_compiler_wrappers first then rest else command)

abbrev pub driver_mode : List Text
driver_mode = codes "--driver-mode=cl" ∷ []

-- `Invocation.from_compile_command`; `executable` is `IWYU_EXECUTABLE`.
unfoldable pub from_compile_command : System → Text → Entry → List Text → Result Invocation
unfolding command_of unwrapped is_msvc_driver
from_compile_command sys executable e extra_args =
    command_of sys e >>= unwrapped >>= uncons >>= λ (compile_command, compile_args).
    item e.directory >>= λ directory.
    let mode = if is_msvc_driver sys.platform compile_command then driver_mode else [] in
    ok (record { command = executable ∷ ((mode ++ extra_args) ++ compile_args); cwd = directory })

-- The file of an entry, made absolute where the entry has a directory.
unfoldable pub absolute_file : Entry → Text → Text
unfolding isabs path_join
absolute_file e file = elim e.directory [
  | none ↦ file
  | some directory ↦ if isabs file then file else path_join directory file
]

unfoldable pub fixup_entry : System → Entry → Result Entry
unfolding absolute_file
fixup_entry sys e =
    item e.file >>= λ file. ok (record e { file = some (sys.realpath (absolute_file e file)) })

unfoldable pub fixup_compilation_db : System → List Entry → Result (List Entry)
unfolding fixup_entry
fixup_compilation_db sys [] = ok []
fixup_compilation_db sys (e ∷ es) =
    fixup_entry sys e >>= λ e'. fixup_compilation_db sys es >>= λ es'. ok (e' ∷ es')

-- `is_subpath_of(e['file'], path)`; every entry has a file behind `fixup_compilation_db`.
unfoldable pub is_selected : System → Text → Entry → Bool
unfolding is_subpath_of
is_selected sys path e = elim e.file [
  | none ↦ false
  | some file ↦ is_subpath_of sys.platform file path
]

-- The new database, and the warnings.
pub record Sliced : Type 0 where
  pub new_db : List Entry
  pub warnings : List Text

abbrev pub not_on_disk : Text → Text
not_on_disk path = codes "warning: '" ++ (path ++ codes "' not found on disk.")

abbrev pub not_in_db : Text → Text
not_in_db path = codes "warning: '" ++ (path ++ codes "' not found in compilation database.")

-- The body of the `for` loop over the selection.
unfoldable pub slice_path : System → List Entry → Sliced → Text → Sliced
unfolding is_selected
slice_path sys db s path =
    let found = keep (is_selected sys path) db in
    if not (sys.exists_on_disk path)
    then record s { warnings = s.warnings ++ (not_on_disk path ∷ []) }
    else if is_empty found
    then record s { warnings = s.warnings ++ (not_in_db path ∷ []) }
    else record s { new_db = s.new_db ++ found }

unfoldable pub slice_paths : System → List Entry → Sliced → List Text → Sliced
unfolding slice_path
slice_paths sys db s [] = s
slice_paths sys db s (path ∷ paths) = slice_paths sys db (slice_path sys db s path) paths

unfoldable pub slice_compilation_db : System → List Entry → List Text → Sliced
unfolding slice_paths
slice_compilation_db sys db selection =
    if is_empty selection
    then record { new_db = db; warnings = [] }
    else slice_paths sys db (record { new_db = []; warnings = [] }) (map sys.realpath selection)

-- `main` from the database on: the invocations and the warnings.
unfoldable pub invocations_of : System → Text → List Text → List Entry → Result (List Invocation)
unfolding from_compile_command
invocations_of sys executable extra_args [] = ok []
invocations_of sys executable extra_args (e ∷ es) =
    from_compile_command sys executable e extra_args >>= λ i.
    invocations_of sys executable extra_args es >>= λ is. ok (i ∷ is)

-- The first directory of the search path that has the executable.
unfoldable pub find_in : System → Text → List Text → Option Text
unfolding path_join
find_in sys name [] = none
find_in sys name (dirpath ∷ dirs) =
    let full = path_join dirpath name in
    if sys.isfile full then some (sys.realpath full) else find_in sys name dirs

-- `os.environ.get('PATH', '')`
abbrev pub or_empty : Option Text → Text
or_empty none = []
or_empty (some path) = path

-- `iwyu_binary` and `path` are the two environment variables, `script_dir` is the script's folder.
unfoldable pub find_include_what_you_use : System → Option Text → Option Text → Text → Option Text
unfolding find_in split
find_include_what_you_use sys iwyu_binary path script_dir =
    let suffix = if sys.platform.windows then codes ".exe" else [] in
    let pathsep = if sys.platform.windows then b';' else b':' in
    elim iwyu_binary [
      | some binary ↦ some binary
      | none ↦
          find_in sys (codes "include-what-you-use" ++ suffix)
            (script_dir ∷ split pathsep (or_empty path))
    ]

-- `partition_args`: the driver's arguments and those for include-what-you-use.
unfoldable pub partition_args : List Text → List Text × List Text
unfolding text_eq
partition_args [] = ([], [])
partition_args (arg ∷ argv) =
    let rest = partition_args argv in
    if text_eq arg (codes "--") then ([], argv) else (arg ∷ rest.0, rest.1)
