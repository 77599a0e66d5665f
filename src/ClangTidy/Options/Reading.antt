-- ===== src/ClangTidy/Options/Reading.antt =====
-- The options of tools/run-clang-tidy.py that may stand in any order, read from the command line.
pub mod Stages
pub mod Values
pub mod Switches
use for_montee.Base.{
  ℤ, ◌≡◌, refl, Bool, true, false, List, [], ◌∷◌, ◌++◌, map, Option, none, some, Text, codes,
}
use for_montee.Argparse.{Parser, took, parse_optional}
use for_montee.Argparse.Parse.{conflicts}
use for_montee.Argparse.Written.{
  IsProper, Leads, Leads-nil, ◌⨟◌, explicit-Leads, flag-Leads, Leads-flag, Leads-text, Leads-list,
}
use for_montee.ClangTidy.Command.{strtobool, flag_if, with_value, with_text}
use for_montee.ClangTidy.Host.{Options}
use for_montee.ClangTidy.Options.{
  alpha_flag, tidy_binary_option, replacements_binary_option, checks_option, header_filter_option,
  line_filter_option, export_fixes_option, jobs_option, fix_flag, format_flag, style_option,
  use_color_option, build_path_option, extra_arg_option, extra_arg_before_option, quiet_flag,
  load_option, defaults, parser,
}
use for_montee.ClangTidy.Options.Written.{
  AllProper, IsWritable, text_of, color_text, prefixed, free_options,
}
use for_montee.ClangTidy.Options.Reading.Stages.{
  configured, at_alpha, at_tidy_binary, at_replacements_binary, at_checks, at_header_filter,
  at_line_filter, at_export_fixes, at_jobs, at_fix, at_format, at_style, at_color, at_build_path,
  at_extra_arg, at_extra_arg_before, at_quiet, at_load,
}
use for_montee.ClangTidy.Options.Reading.Values.{
  tidy_binary-Leads, replacements_binary-Leads, checks-Leads, header_filter-Leads,
  line_filter-Leads, export_fixes-Leads, jobs-Leads, style-Leads, color-Leads, build_path-Leads,
}
use for_montee.ClangTidy.Options.Reading.Switches.{
  alpha-Leads, fix-Leads, format-Leads, extra_arg-Leads, extra_arg_before-Leads, quiet-Leads,
  load-Leads,
}

module _ (o : Options) where
  module _ (lower : Text → Text) (int_of : Text → Option ℤ) (is_negative_number : Text → Bool) where
    abbrev p : Parser Options
    p = parser true lower int_of is_negative_number

    -- The options that may stand in any order, read in the order in which they are written.
    pub free_options-Leads :
        (j : Text)
        → IsWritable o j
        → int_of j ≡ some o.j
        → lower (codes "true") ≡ codes "true"
        → lower (codes "false") ≡ codes "false"
        → Leads p (free_options o j) (configured o) (record o { files = defaults.files })
    free_options-Leads j (q1, q2, q3, q4, q5, q6, q7, q8, q9, q10, q11, q12, q13, q14) reads
          low_true low_false =
        alpha-Leads o lower int_of is_negative_number
        ⨟ tidy_binary-Leads o lower int_of is_negative_number q3
        ⨟ replacements_binary-Leads o lower int_of is_negative_number q4
        ⨟ checks-Leads o lower int_of is_negative_number q5
        ⨟ header_filter-Leads o lower int_of is_negative_number q6
        ⨟ line_filter-Leads o lower int_of is_negative_number q7
        ⨟ export_fixes-Leads o lower int_of is_negative_number q8
        ⨟ jobs-Leads o lower int_of is_negative_number j reads q9
        ⨟ fix-Leads o lower int_of is_negative_number
        ⨟ format-Leads o lower int_of is_negative_number
        ⨟ style-Leads o lower int_of is_negative_number q10
        ⨟ color-Leads o lower int_of is_negative_number low_true low_false
        ⨟ build_path-Leads o lower int_of is_negative_number q11
        ⨟ extra_arg-Leads o lower int_of is_negative_number q12
        ⨟ extra_arg_before-Leads o lower int_of is_negative_number q13
        ⨟ quiet-Leads o lower int_of is_negative_number
        ⨟ load-Leads o lower int_of is_negative_number q14
