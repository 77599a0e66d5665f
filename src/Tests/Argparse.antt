-- ===== src/Tests/Argparse.antt =====
-- The command lines of the three scripts, and what they are read as.
use for_montee.Base.{
  ◌≡◌, refl, pos, true, false, ◌||◌, List, [], ◌∷◌, ◌++◌, some, Text, codes, is_empty, join,
  text_eq, contains, rstrip_space, with_newlines, split, is_line_end,
}
use for_montee.Argparse.{parsed, system_exit, untyped}
use for_montee.Tests.Checks.{none_of-All, digit, never_number}
use for_montee.ClangTidy.Host
use for_montee.ClangTidy.Command.{strtobool}
use for_montee.ClangTidy.Options.{tidy_args, defaults}
use for_montee.ClangTidy.Options.Written.{written}
use for_montee.ClangTidy.Options.RoundTrip.{tidy_args-written}
use for_montee.ClangTidy.Options.Exclusive.{tidy_args-IsExclusive}
use for_montee.ClangFormat.Program.{always}
use for_montee.ClangFormat.Program
use for_montee.ClangFormat.Options
use for_montee.ClangFormat.Options.{format_args, extensions_of}
use for_montee.ClangFormat.Options.Written
use for_montee.ClangFormat.Options.Written.{extensions_text}
use for_montee.ClangFormat.Options.RoundTrip.{format_args-written}
use for_montee.ClangFormat.Options.Files.{format_args-IsRunnable}
use for_montee.IwyuTool.Help.{custom_help}
use for_montee.IwyuTool.Help.Wrapped.{custom_help-wrapped}

abbrev tidy_options : Host.Options
tidy_options = record defaults {
  build_path = some (codes "build");
  tidy = record defaults.tidy {
    checks = codes "-*,bugprone-*";
    config_file = codes ".clang-tidy";
    extra_arg = codes "-std=c++17" ∷ codes "-DX=1" ∷ [];
    use_color = some false;
    quiet = true;
  };
  fix = true;
  j = pos 4;
  files = codes "src/.*" ∷ codes "-x" ∷ [];
}

abbrev tidy_line : List Text
tidy_line = written tidy_options (codes "4")

tidy_args-written_example :
    tidy_args true (λ v. v) digit never_number tidy_line ≡ parsed tidy_options
unfolding text_eq contains
tidy_args-written_example =
    tidy_args-written (λ v. v) digit never_number tidy_options (codes "4") refl refl refl
      (refl, refl, refl, refl, refl, refl, refl, refl, refl, refl, refl, refl, refl, refl) refl refl

tidy_args-IsExclusive_example :
    is_empty tidy_options.tidy.config || is_empty tidy_options.tidy.config_file ≡ true
unfolding tidy_args strtobool
tidy_args-IsExclusive_example =
    tidy_args-IsExclusive true (λ v. v) digit never_number tidy_line tidy_options refl

-- Both `-config` and `-config-file`, an abbreviation, `-use-color` alone, and a value `--`.
tidy_both :
    tidy_args true
      (λ v. v)
      digit
      never_number
      (codes "-config" ∷ codes "a" ∷ codes "-config-file=b" ∷ [])
    ≡ system_exit 2
unfolding tidy_args
tidy_both = refl

tidy_short :
    tidy_args true (λ v. v) digit never_number (codes "-use-color" ∷ codes "-fo" ∷ codes "-j4" ∷ [])
    ≡ parsed (record defaults {
      tidy = record defaults.tidy { use_color = some true };
      format = true;
      j = pos 4;
    })
unfolding tidy_args
tidy_short = refl

tidy_mark : tidy_args true (λ v. v) digit never_number (codes "-checks=--" ∷ []) ≡ untyped
unfolding tidy_args
tidy_mark = refl

abbrev format_options : Program.Options
format_options = record Options.defaults {
  args = record Options.defaults.args { style = codes "Google"; in_place = true };
  extensions = codes "c" ∷ codes "h" ∷ [];
  recursive = true;
  exclude = codes "*/gen/*" ∷ codes "-" ∷ [];
  color = always;
  j = pos 2;
  files = codes "src" ∷ [];
}

abbrev format_line : List Text
format_line = Written.written format_options (extensions_text format_options) (codes "2")

format_args-written_example : format_args digit never_number format_line ≡ parsed format_options
unfolding text_eq contains split join
format_args-written_example =
    format_args-written digit never_number format_options (codes "2") refl refl
      ((refl, tt), ((refl, tt), tt)) (refl, refl, refl, refl, refl) refl

format_args-IsRunnable_example : is_empty format_options.files ≡ false
unfolding format_args split join
format_args-IsRunnable_example =
    format_args-IsRunnable digit never_number format_line format_options refl

-- The files may stand between the options, but only together.
format_between :
    format_args digit never_number (codes "-ri" ∷ codes "a" ∷ codes "b" ∷ codes "-qj2" ∷ [])
    ≡ parsed (record Options.defaults {
      args = record Options.defaults.args { in_place = true };
      recursive = true;
      quiet = true;
      j = pos 2;
      files = codes "a" ∷ codes "b" ∷ [];
    })
unfolding format_args
format_between = refl

format_apart :
    format_args digit never_number (codes "a" ∷ codes "-q" ∷ codes "b" ∷ []) ≡ system_exit 2
unfolding format_args
format_apart = refl

-- `--ex` may be `--extensions` or `--exclude`.
format_ambiguous : format_args digit never_number (codes "--ex=a" ∷ codes "b" ∷ []) ≡ system_exit 2
unfolding format_args
format_ambiguous = refl

abbrev usage_lines : List Text
usage_lines = codes "[-p]" ∷ []

custom_help-wrapped_example :
    custom_help
      (codes "\n")
      (with_newlines (codes "x [-h]" ∷ usage_lines))
      (with_newlines (codes "x [-h]" ∷ codes "[-p]" ∷ codes "" ∷ codes "Help" ∷ []))
    ≡ some (
        join (codes "\n") (
          (rstrip_space (with_newlines (codes "x [-h]" ∷ usage_lines)) ++ codes " -- [<IWYU args>]")
          ∷ (usage_lines ++ (codes "" ∷ codes "Help" ∷ [])))
        ++ codes "\n")
custom_help-wrapped_example =
    custom_help-wrapped (codes "\n") (codes "x [-h]") usage_lines (codes "" ∷ codes "Help" ∷ [])
      (refl, tt)
      (
        none_of-All is_line_end (codes "x [-h]") refl,
        (
          none_of-All is_line_end (codes "[-p]") refl,
          (tt, (none_of-All is_line_end (codes "Help") refl, tt)),
        ),
      )
