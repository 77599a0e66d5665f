-- ===== src/ClangTidy/Command.antt =====
-- `strtobool`, `get_tidy_invocation`, `find_binary` and the command of `apply_fixes` of
-- tools/run-clang-tidy.py.
use for_montee.Base.{
  Bool, true, false, List, [], ◌∷◌, ◌++◌, map, Option, none, some, Text, codes, contains, is_empty,
  path_join, if◌then◌else◌,
}

-- `lower` is `str.lower`; none is the `ArgumentTypeError`.
unfoldable pub strtobool : (Text → Text) → Text → Option Bool
unfolding contains
strtobool lower val =
    if contains ([] ∷ codes "true" ∷ codes "1" ∷ []) (lower val)
    then some true
    else if contains (codes "false" ∷ codes "0" ∷ []) (lower val)
    then some false
    else none

-- The parameters of `get_tidy_invocation` that come from the command line. Where the code tests a
-- text for being true, an option that is not given is the empty text.
pub record TidyArgs : Type 0 where
  pub checks : Text
  pub header_filter : Option Text
  pub allow_enabling_alpha_checkers : Bool
  pub extra_arg : List Text
  pub extra_arg_before : List Text
  pub quiet : Bool
  pub config_file : Text
  pub config : Text
  pub line_filter : Option Text
  pub use_color : Option Bool
  pub plugins : List Text

abbrev pub flag_if : Bool → Text → List Text
flag_if true flag = flag ∷ []
flag_if false flag = []

abbrev pub with_value : Text → Option Text → List Text
with_value flag none = []
with_value flag (some value) = (flag ++ value) ∷ []

-- `if value: start.append(flag + value)`
abbrev pub with_text : Text → Text → List Text
with_text flag value = if is_empty value then [] else (flag ++ value) ∷ []

abbrev pub color_flag : Option Bool → List Text
color_flag none = []
color_flag (some true) = codes "--use-color" ∷ []
color_flag (some false) = codes "--use-color=false" ∷ []

-- `export` is the name of the temporary file, where there is a directory for it.
abbrev pub export_flags : Option Text → List Text
export_flags none = []
export_flags (some name) = codes "-export-fixes" ∷ name ∷ []

-- `if config_file_path: ... elif config: ...`
abbrev pub config_flags : Text → Text → List Text
config_flags config_file config =
    if is_empty config_file
    then with_text (codes "-config=") config
    else (codes "--config-file=" ++ config_file) ∷ []

unfoldable pub get_tidy_invocation : Text → Text → TidyArgs → Option Text → Text → List Text
get_tidy_invocation f clang_tidy_binary a export build_path =
    (clang_tidy_binary ∷ [])
    ++ flag_if a.allow_enabling_alpha_checkers (codes "-allow-enabling-analyzer-alpha-checkers")
    ++ with_value (codes "-header-filter=") a.header_filter
    ++ with_value (codes "-line-filter=") a.line_filter
    ++ color_flag a.use_color
    ++ with_text (codes "-checks=") a.checks
    ++ export_flags export
    ++ map (λ arg. codes "-extra-arg=" ++ arg) a.extra_arg
    ++ map (λ arg. codes "-extra-arg-before=" ++ arg) a.extra_arg_before
    ++ ((codes "-p=" ++ build_path) ∷ [])
    ++ flag_if a.quiet (codes "-quiet")
    ++ config_flags a.config_file a.config
    ++ map (λ plugin. codes "-load=" ++ plugin) a.plugins
    ++ (f ∷ [])

-- The binary, or `SystemExit`.
pub data Binary : Type 0 where
  binary : Text → Binary
  system_exit : Binary

abbrev or_exit : Option Text → Binary
or_exit none = system_exit
or_exit (some path) = binary path

abbrev first_of : Option Text → Option Text → Option Text
first_of none b = b
first_of (some path) b = some path

-- `which` is `shutil.which`.
unfoldable pub find_binary : (Text → Option Text) → Text → Text → Text → Binary
unfolding path_join
find_binary which arg name build_path =
    let built_path = path_join (path_join build_path (codes "bin")) name in
    if is_empty arg
    then or_exit (first_of (which name) (which built_path))
    else elim (which arg) [ some path ↦ binary arg | none ↦ system_exit ]

unfoldable pub apply_invocation : Text → Bool → Text → Text → List Text
apply_invocation clang_apply_replacements_binary format style tmpdir =
    (clang_apply_replacements_binary ∷ codes "-ignore-insert-conflict" ∷ [])
    ++ flag_if format (codes "-format")
    ++ with_text (codes "-style=") style
    ++ (tmpdir ∷ [])
