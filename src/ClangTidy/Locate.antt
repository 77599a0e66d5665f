-- ===== src/ClangTidy/Locate.antt =====
-- `find_compilation_database` and `make_absolute` of tools/run-clang-tidy.py.
pub mod Nearest
use for_montee.Base.{
  ℕ, zero, suc, Bool, true, false, Option, none, some, Text, codes, text_eq, isabs, path_join,
  dirname, normpath, if◌then◌else◌,
}

-- The function returns a directory, or it ends the program.
pub data Located : Type 0 where
  located : Text → Located
  exited : Located

-- The `while` loop; `none` means that the fuel ran out.
unfoldable pub find_from : (Text → Bool) → Text → ℕ → Text → Option Located
unfolding path_join dirname text_eq
find_from isfile path zero result = none
find_from isfile path (suc fuel) result =
    let parent = dirname result in
    let rest = find_from isfile path fuel parent in
    if isfile (path_join result path)
    then some (located result)
    else if text_eq result parent
    then some exited
    else rest

unfoldable pub find_compilation_database : (Text → Bool) → (Text → Text) → ℕ → Text → Option Located
unfolding find_from
find_compilation_database isfile realpath fuel path =
    find_from isfile path fuel (realpath (codes "./"))

unfoldable pub make_absolute : Text → Text → Text
unfolding isabs path_join normpath
make_absolute f directory = if isabs f then f else normpath (path_join directory f)
