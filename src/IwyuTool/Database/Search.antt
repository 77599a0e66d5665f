-- ===== src/IwyuTool/Database/Search.antt =====
-- Which executable `find_include_what_you_use` gives.
use for_montee.Base.{
  ◌≡◌, ◌⊎◌, inl, inr, refl, ap, Bool, true, false, List, [], ◌∷◌, ◌++◌, Option, none, some, Text,
  codes, path_join, split, All, subst, Bool-cases, if◌then◌else◌,
}
use for_montee.IwyuTool.Database.{System, find_in, or_empty, find_include_what_you_use}

module _ (sys : System) where
  abbrev pub HasProgram : Text → Text → Bool → Type 0
  HasProgram name dirpath b = sys.isfile (path_join dirpath name) ≡ b

  -- No directory has the program and there is no result, or the result is the canonical path of the
  -- program in the first directory that has it.
  abbrev pub First : Text → List Text → Option Text → Type 0
  First name dirs found =
      ((found ≡ none) × All (λ d. HasProgram name d false) dirs)
      ⊎ ((before : List Text) × (d : Text) × (after : List Text) × (dirs ≡ before ++ (d ∷ after))
          × All (λ e. HasProgram name e false) before
          × HasProgram name d true
          × (found ≡ some (sys.realpath (path_join d name))))

  First-cons :
      (name d : Text) (dirs : List Text) (found : Option Text)
      → HasProgram name d false
      → First name dirs found
      → First name (d ∷ dirs) found
  First-cons name d dirs found lacks (inl (e, none_has)) = inl (e, (lacks, none_has))
  First-cons name d dirs found lacks (inr (before, c, after, e, none_before, has, f)) =
      inr (d ∷ before, c, after, ap (◌∷◌ d) e, (lacks, none_before), has, f)

  find_in-lacking :
      (name d : Text) (dirs : List Text)
      → HasProgram name d false
      → find_in sys name dirs ≡ find_in sys name (d ∷ dirs)
  unfolding find_in
  find_in-lacking name d dirs lacks = rw lacks refl

  find_in-First : (name : Text) (dirs : List Text) → First name dirs (find_in sys name dirs)
  unfolding find_in
  find_in-First name [] = inl (refl, tt)
  find_in-First name (d ∷ dirs) = elim (Bool-cases (sys.isfile (path_join d name))) [
    | inl has ↦ inr ([], d, dirs, refl, tt, has, rw has refl)
    | inr lacks ↦
        First-cons name d dirs _ lacks
          (subst (First name dirs) (find_in-lacking name d dirs lacks) (find_in-First name dirs))
  ]

  abbrev pub program : Text
  program = codes "include-what-you-use" ++ (if sys.platform.windows then codes ".exe" else [])

  -- The script's folder, and the directories of `PATH`.
  abbrev pub search_path : Option Text → Text → List Text
  search_path path script_dir =
      script_dir ∷ split (if sys.platform.windows then b';' else b':') (or_empty path)

  -- Without `IWYU_BINARY`, the executable is the program in the first directory that has it of the
  -- script's folder and those of `PATH`, as a canonical path, and there is none where none has it.
  pub find_include_what_you_use-First :
      (path : Option Text) (script_dir : Text)
      → First program
          (search_path path script_dir)
          (find_include_what_you_use sys none path script_dir)
  unfolding find_include_what_you_use
  find_include_what_you_use-First path script_dir =
      find_in-First program (search_path path script_dir)
