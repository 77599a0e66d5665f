-- ===== src/Lib.antt =====
-- The Python tools of ForMontee, which run include-what-you-use, clang-format and clang-tidy over
-- the sources.
--
-- tools/iwyu_tool.py reads a compilation database, makes an invocation of include-what-you-use of
-- each selected entry, runs at most `--jobs` of them at a time and prints their reports, if asked in
-- the form of compiler messages. Below IwyuTool:
--   Bootstrap      `_bootstrap`, with its options in Options
--   Help           the usage and the help that `_bootstrap` changes
--   Main           `main`, which composes the rest
--   Database       `fixup_compilation_db`, `slice_compilation_db`, `from_compile_command`,
--                  `split_command`, `find_include_what_you_use`, `partition_args`
--   Paths          `normcase`, `is_subpath_of`, `is_msvc_driver`
--   WinSplit       `win_split`
--   Execute        `execute`, `Process` and `Invocation.start`
--   Formatter      `clang_formatter`, with its regular expressions in Regex
-- tools/run-clang-format.py compares files with what clang-format makes of them. Below ClangFormat:
--   Script         the command line, then `main`
--   Options        the options that `main` declares
--   Program        `main` behind the parsing of the arguments
--   Main           the loop of `main` over the results, and the number of jobs
--   Excludes       `excludes_from_file`
--   ListFiles      `list_files`; Fnmatch is the pattern matching of the standard library
--   Diff           `run_clang_format_diff` and its wrapper, `make_diff`
--   Colors         `colorize`, `print_diff`
--   Trouble        `print_trouble` and its messages
-- tools/run-clang-tidy.py runs clang-tidy over the files of a compilation database, in threads that
-- take names from a queue. Below ClangTidy:
--   Script         the command line, then `main`
--   Options        the options that `main` declares
--   Main           `main` behind the parsing of the arguments; Host is what it sees of the system
--   Workers        `run_tidy`, and how `main` fills the queue and waits for it
--   Locate         `find_compilation_database`, `make_absolute`
--   Command        `strtobool`, `get_tidy_invocation`, `find_binary`, the command of `apply_fixes`
--   Fixes          `merge_replacement_files`, and the exit code
-- Argparse is what the scripts use of the `argparse` of Python 3.10: `Parser` holds the options, an
-- option is a `Spec`, and `parse_args` gives the namespace, or the status that the program exits with.
-- The files of a component's folder are proofs about it; Base has what the components share, and
-- Tests has runs on concrete inputs and the theorems at inputs that meet their hypotheses.
--
-- Texts are lists of character codes. State is passed explicitly: `Execution` is the variables of
-- `execute`, `SplitState` those of `win_split`, `Formatting` those of `clang_formatter`, `Loop`
-- those of the loop over the results. Exceptions are values: `none` in the formatter, `err` in the
-- database, `Outcome` for a file, `Ran` for clang-tidy on a file, `Stage` for a part of the `main`
-- of run-clang-tidy.py. A subprocess of `execute` is the number of polls at which it still runs,
-- its output and its return code; `starts` says which of them `Popen` starts, and the `OSError` of
-- another ends `execute`, which stands for every exception of a start; the load averages and the
-- floats of `--load` are a parameter with the law that `int` of a load in [0, c) is a number below
-- c.
--
-- The `while` loop of `execute` runs on fuel. `future` counts the polls that the processes to be
-- started need, and more fuel than that gives a result. The search for the database of
-- run-clang-tidy.py runs on fuel too: more than the length of the working directory's path is
-- enough, since each parent is shorter, and `main` gives that. All other loops are structural.
--
-- The threads of run-clang-tidy.py are a relation: a step is one action of one thread, in any
-- order. That each name is handled once is stated by weights: two lists with the same sum for all
-- weights of names have the same names as often.
--
-- Parameters stand for the file system, `json.load`, `shlex.split`, `str.lower`, `int`, `float`,
-- `difflib.unified_diff`, the subprocesses, the order in which a pool gives its results, and that
-- in which its processes write. Functions of `os.path` are those of POSIX. An exception of the
-- formatter or of a start ends `execute`, and an exception in a thread of run-clang-tidy.py ends
-- that thread. A regular expression of the user is a parameter, and so is the order in which
-- Python goes through a set. An option with the value `--` gets an empty list in place of a text:
-- `parse_args` says no more than `untyped` of it. The texts that argparse writes itself are
-- parameters. Not modelled: the signals, the encodings and the Python 2 branches, the time that
-- passes, a thread that cannot be started; the C++ part of the repository, and
-- python/access_data.py, which only calls it.
pub mod Base
pub mod Argparse
pub mod IwyuTool
pub mod ClangFormat
pub mod ClangTidy
pub mod Tests
