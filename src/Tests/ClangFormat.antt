-- ===== src/Tests/ClangFormat.antt =====
-- tools/run-clang-format.py on concrete files.
use for_montee.Tests.Checks.{none_of, none_of-All}
use for_montee.Base.{
  rstrip_space, ◌≡◌, ◌==◌, ◌↔◌, refl, true, false, List, [], ◌∷◌, map, In, Option, none, some, Text,
  codes, path_join, extension, text_eq, if◌then◌else◌,
}
use for_montee.ClangFormat.Excludes.{opened, excludes, excludes_from_file, is_comment}
use for_montee.ClangFormat.Excludes.Lines.{
  Line, comment, pattern, empty, written, patterns, excludes_from_file-written,
}
use for_montee.ClangFormat.Fnmatch.{fnmatch}
use for_montee.ClangFormat.ListFiles.{Dir, dir, end, subdir, list_files, own_files, survives}
use for_montee.ClangFormat.ListFiles.Found.{Listed, list_files-Listed}
use for_montee.ClangFormat.Colors.{esc}
use for_montee.ClangFormat.Colors.Plain.{NoEscape}

clean : (line : Text) → none_of (λ c. c == esc) line ≡ true → NoEscape line
clean line e = none_of-All (λ c. c == esc) line e

abbrev ignored : List Line
ignored =
    record { item = comment (codes " build"); space = codes "\n" }
    ∷ record { item = pattern (codes "*/gen/*"); space = codes " \n" }
    ∷ record { item = empty; space = codes "\n" }
    ∷ []

excludes_from_file-written_example :
    excludes_from_file (opened (map written ignored)) ≡ excludes (patterns ignored)
unfolding rstrip_space is_comment
excludes_from_file-written_example =
    excludes_from_file-written ignored
      (((refl, tt), tt), (((refl, (refl, tt)), (refl, refl, refl)), (((refl, tt), tt), tt)))

abbrev tree : Dir
tree = dir (codes "a.cc" ∷ codes "a.txt" ∷ []) (
    subdir (codes "gen") (dir (codes "b.cc" ∷ []) end)
      (subdir (codes "lib") (dir (codes "c.h" ∷ codes "c.cc" ∷ []) end) end))

abbrev read_dir : Text → Option Dir
read_dir path = if text_eq path (codes "src") then some tree else none

abbrev listed : List Text
listed =
    list_files (codes "cc" ∷ []) (codes "*/gen" ∷ []) true read_dir
      (codes "src" ∷ codes "x.txt" ∷ [])

list_files_runs : listed ≡ codes "src/a.cc" ∷ codes "src/lib/c.cc" ∷ codes "x.txt" ∷ []
unfolding list_files text_eq own_files fnmatch path_join extension survives
list_files_runs = refl

fnmatch_runs :
    map (λ name. fnmatch name (codes "*.[ch]")) (codes "a.c" ∷ codes "a/b.h" ∷ codes "a.cc" ∷ [])
    ≡ true ∷ true ∷ false ∷ []
unfolding fnmatch
fnmatch_runs = refl

list_files-Listed_example : In (codes "x.txt") listed ↔ (
    (file : Text) × In file (codes "src" ∷ codes "x.txt" ∷ [])
    × Listed
        (codes "cc" ∷ [])
        (codes "*/gen" ∷ [])
        true
        read_dir
        (codes "x.txt")
        file
        (read_dir file))
list_files-Listed_example =
    list_files-Listed (codes "cc" ∷ []) (codes "*/gen" ∷ []) true read_dir
      (codes "src" ∷ codes "x.txt" ∷ []) (codes "x.txt")
