-- ===== src/ClangFormat/Options/Written.antt =====
-- The options of tools/run-clang-format.py, written on a command line.
use for_montee.Base.{
  ◌≡◌, Bool, true, false, List, [], ◌∷◌, ◌++◌, map, Text, codes, join, is_empty, contains,
  if◌then◌else◌,
}
use for_montee.Argparse.Written.{IsProper}
use for_montee.Argparse.{dashes}
use for_montee.ClangFormat.Program.{Color, auto, always, never, Options}

-- The values of the options; `e` is the list of extensions and `j` the number of jobs as they are
-- written.
abbrev pub IsWritable : (o : Options) (e j : Text) → Type 0
IsWritable o e j =
    IsProper o.args.clang_format_executable
    × IsProper e
    × IsProper j
    × contains o.exclude dashes ≡ false
    × IsProper o.args.style

abbrev pub flag_if : Bool → Text → List Text
flag_if true flag = flag ∷ []
flag_if false flag = []

abbrev pub color_text : Color → Text
color_text auto = codes "auto"
color_text always = codes "always"
color_text never = codes "never"

abbrev pub options_text : (o : Options) (e j : Text) → List Text
options_text o e j =
    ((codes "--clang-format-executable=" ++ o.args.clang_format_executable) ∷ [])
    ++ ((codes "--extensions=" ++ e) ∷ [])
    ++ flag_if o.recursive (codes "--recursive")
    ++ flag_if o.args.dry_run (codes "--dry-run")
    ++ flag_if o.args.in_place (codes "--in-place")
    ++ flag_if o.quiet (codes "--quiet")
    ++ ((codes "-j=" ++ j) ∷ [])
    ++ ((codes "--color=" ++ color_text o.color) ∷ [])
    ++ map (λ v. codes "--exclude=" ++ v) o.exclude
    ++ (if is_empty o.args.style then [] else (codes "--style=" ++ o.args.style) ∷ [])

-- What `--extensions` is given.
abbrev pub extensions_text : Options → Text
extensions_text o = join (codes ",") o.extensions

-- The command line of the options, with the files behind `--`.
abbrev pub written : (o : Options) (e j : Text) → List Text
written o e j = options_text o e j ++ (dashes ∷ o.files)
