-- ===== src/ClangFormat/ListFiles.antt =====
-- `list_files` of tools/run-clang-format.py. A directory is what `os.walk` reads of it.
pub mod Found
use for_montee.Base.{
  ℕ, Bool, true, false, not, ◌&&◌, List, [], ◌∷◌, ◌++◌, map, Option, none, some, Text, keep,
  contains, path_join, extension, drop, if◌then◌else◌,
}
use for_montee.ClangFormat.Fnmatch.{fnmatch}

-- The names of the files of a directory, and its directories in the order in which they are read.
mutual
  pub data Dir : Type 0 where
    dir : List Text → Subdirs → Dir

  -- A symbolic link to a directory is named among the directories, and is not walked.
  pub data Subdirs : Type 0 where
    end : Subdirs
    subdir : Text → Dir → Subdirs → Subdirs
    link : Text → Subdirs → Subdirs

-- A path that none of the patterns matches.
unfoldable pub survives : List Text → Text → Bool
survives [] path = true
survives (pattern ∷ patterns) path = not (fnmatch path pattern) && survives patterns path

-- The loop over `exclude`, which filters the list once for each pattern.
unfoldable pub exclude_all : List Text → List Text → List Text
exclude_all [] paths = paths
exclude_all (pattern ∷ patterns) paths =
    exclude_all patterns (keep (λ x. not (fnmatch x pattern)) paths)

-- `ext in extensions`, for the extension without its dot.
unfoldable pub has_extension : List Text → Text → Bool
unfolding contains
has_extension extensions f = contains extensions (drop 1 (extension f))

module _ (extensions exclude : List Text) where
  -- The files of one directory that are appended to `out`.
  unfoldable pub own_files : Text → List Text → List Text
  unfolding exclude_all has_extension
  own_files dirpath fnames =
      keep (has_extension extensions) (exclude_all exclude (map (path_join dirpath) fnames))

  unfoldable mutual
    -- The loop over `os.walk(dirpath)`: a directory before what is below it.
    pub walk : Dir → Text → List Text
    walk (dir fnames subdirs) dirpath = own_files dirpath fnames ++ walk_subdirs subdirs dirpath

    -- The directories that are left in `dnames`.
    pub walk_subdirs : Subdirs → Text → List Text
    walk_subdirs end dirpath = []
    walk_subdirs (link name subdirs) dirpath = walk_subdirs subdirs dirpath
    walk_subdirs (subdir name d subdirs) dirpath =
        let path = path_join dirpath name in
        let below = walk d path in
        (if survives exclude path then below else []) ++ walk_subdirs subdirs dirpath

  -- `read_dir` gives the directory at a path, if `os.path.isdir` holds of it.
  module _ (recursive : Bool) (read_dir : Text → Option Dir) where
    abbrev pub list_dir : Text → Option Dir → List Text
    list_dir file none = file ∷ []
    list_dir file (some d) = if recursive then walk d file else file ∷ []

    unfoldable pub list_files : List Text → List Text
    unfolding walk
    list_files [] = []
    list_files (file ∷ files) = list_dir file (read_dir file) ++ list_files files
