-- ===== src/ClangTidy/Options/Written.antt =====
-- The options of tools/run-clang-tidy.py, written on a command line and read back.
use for_montee.Base.{
  ◌≡◌, Bool, true, false, List, [], ◌∷◌, ◌++◌, map, Option, none, some, Text, codes, contains,
}
use for_montee.Argparse.Written.{IsProper}
use for_montee.Argparse.{dashes}
use for_montee.ClangTidy.Command.{flag_if, with_value, with_text}
use for_montee.ClangTidy.Host.{Options}

abbrev pub text_of : Option Text → Text
text_of none = []
text_of (some v) = v

abbrev pub AllProper : List Text → Type 0
AllProper vs = contains vs dashes ≡ false

-- The values of the options; `j` is the number of jobs as it is written.
abbrev pub IsWritable : Options → Text → Type 0
IsWritable o j =
    IsProper o.tidy.config
    × IsProper o.tidy.config_file
    × IsProper o.clang_tidy_binary
    × IsProper o.clang_apply_replacements_binary
    × IsProper o.tidy.checks
    × IsProper (text_of o.tidy.header_filter)
    × IsProper (text_of o.tidy.line_filter)
    × IsProper o.export_fixes
    × IsProper j
    × IsProper o.style
    × IsProper (text_of o.build_path)
    × AllProper o.tidy.extra_arg
    × AllProper o.tidy.extra_arg_before
    × AllProper o.tidy.plugins

abbrev pub prefixed : Text → List Text → List Text
prefixed flag vs = map (λ v. flag ++ v) vs

abbrev pub color_text : Option Bool → List Text
color_text none = []
color_text (some true) = codes "-use-color=true" ∷ []
color_text (some false) = codes "-use-color=false" ∷ []

-- The options that may stand in any order.
abbrev pub free_options : Options → Text → List Text
free_options o j =
    flag_if o.tidy.allow_enabling_alpha_checkers (codes "-allow-enabling-alpha-checkers")
    ++ with_text (codes "-clang-tidy-binary=") o.clang_tidy_binary
    ++ with_text (codes "-clang-apply-replacements-binary=") o.clang_apply_replacements_binary
    ++ with_text (codes "-checks=") o.tidy.checks
    ++ with_value (codes "-header-filter=") o.tidy.header_filter
    ++ with_value (codes "-line-filter=") o.tidy.line_filter
    ++ with_text (codes "-export-fixes=") o.export_fixes
    ++ ((codes "-j=" ++ j) ∷ [])
    ++ flag_if o.fix (codes "-fix")
    ++ flag_if o.format (codes "-format")
    ++ ((codes "-style=" ++ o.style) ∷ [])
    ++ color_text o.tidy.use_color
    ++ with_value (codes "-p=") o.build_path
    ++ prefixed (codes "-extra-arg=") o.tidy.extra_arg
    ++ prefixed (codes "-extra-arg-before=") o.tidy.extra_arg_before
    ++ flag_if o.tidy.quiet (codes "-quiet")
    ++ prefixed (codes "-load=") o.tidy.plugins

abbrev pub config_texts : Options → List Text
config_texts o =
    with_text (codes "-config=") o.tidy.config
    ++ with_text (codes "-config-file=") o.tidy.config_file

-- The command line of the options, with the files behind `--`.
abbrev pub written : Options → Text → List Text
written o j = config_texts o ++ free_options o j ++ (dashes ∷ o.files)
