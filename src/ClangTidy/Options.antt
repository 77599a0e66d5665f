-- ===== src/ClangTidy/Options.antt =====
-- The command line of tools/run-clang-tidy.py: what `main` declares with `add_argument`, and
-- `parse_args`. Where the code tests a text for being true, `None` is the empty text.
pub mod Written
pub mod Reading
pub mod RoundTrip
pub mod Exclusive
use for_montee.Base.{
  ℕ, ℤ, pos, Bool, true, false, List, [], ◌∷◌, ◌++◌, Option, none, some, Text, codes,
}
use for_montee.Argparse.{Nargs, at_most_one, Spec, Parser, Parsed}
use for_montee.Argparse.Actions.{store, store_or_const, option_of, flag_of, help_option, as_text}
use for_montee.Argparse.Parse.{parse_args}
use for_montee.ClangTidy.Command.{TidyArgs, strtobool}
use for_montee.ClangTidy.Host.{Options}

-- An option that `get_tidy_invocation` reads.
abbrev in_tidy : {V : Type 0} → (V → TidyArgs → TidyArgs) → V → Options → Options
in_tidy set v n = record n { tidy = set v n.tidy }

abbrev pub alpha_flag : Spec Options
alpha_flag =
    flag_of (codes "-allow-enabling-alpha-checkers" ∷ [])
      (in_tidy (λ v t. record t { allow_enabling_alpha_checkers = v }) true)

abbrev pub tidy_binary_option : Spec Options
tidy_binary_option =
    option_of (codes "-clang-tidy-binary" ∷ []) as_text (λ v n. record n { clang_tidy_binary = v })

abbrev pub replacements_binary_option : Spec Options
replacements_binary_option =
    option_of (codes "-clang-apply-replacements-binary" ∷ []) as_text
      (λ v n. record n { clang_apply_replacements_binary = v })

abbrev pub checks_option : Spec Options
checks_option = option_of (codes "-checks" ∷ []) as_text (in_tidy (λ v t. record t { checks = v }))

abbrev pub config_option : Spec Options
config_option =
    record (option_of (codes "-config" ∷ []) as_text (in_tidy (λ v t. record t { config = v }))) {
      exclusive = true;
    }

abbrev pub config_file_option : Spec Options
config_file_option =
    record (option_of (codes "-config-file" ∷ []) as_text
      (in_tidy (λ v t. record t { config_file = v }))) { exclusive = true }

abbrev pub header_filter_option : Spec Options
header_filter_option =
    option_of (codes "-header-filter" ∷ []) as_text
      (in_tidy (λ v t. record t { header_filter = some v }))

abbrev pub line_filter_option : Spec Options
line_filter_option =
    option_of (codes "-line-filter" ∷ []) as_text
      (in_tidy (λ v t. record t { line_filter = some v }))

abbrev pub export_fixes_option : Spec Options
export_fixes_option =
    option_of (codes "-export-fixes" ∷ []) as_text (λ v n. record n { export_fixes = v })

-- `int_of` is `int`, and none its `ValueError`.
abbrev pub jobs_option : (Text → Option ℤ) → Spec Options
jobs_option int_of = option_of (codes "-j" ∷ []) int_of (λ v n. record n { j = v })

abbrev pub fix_flag : Spec Options
fix_flag = flag_of (codes "-fix" ∷ []) (λ n. record n { fix = true })

abbrev pub format_flag : Spec Options
format_flag = flag_of (codes "-format" ∷ []) (λ n. record n { format = true })

abbrev pub style_option : Spec Options
style_option = option_of (codes "-style" ∷ []) as_text (λ v n. record n { style = v })

abbrev pub set_use_color : Bool → Options → Options
set_use_color = in_tidy (λ v t. record t { use_color = some v })

abbrev pub use_color_option : (lower : Text → Text) → Spec Options
use_color_option lower = record {
  option_strings = codes "-use-color" ∷ [];
  nargs = at_most_one;
  required = false;
  exclusive = false;
  action = store_or_const (strtobool lower) true set_use_color;
}

abbrev pub build_path_option : Spec Options
build_path_option = option_of (codes "-p" ∷ []) as_text (λ v n. record n { build_path = some v })

abbrev pub extra_arg_option : Spec Options
extra_arg_option =
    option_of (codes "-extra-arg" ∷ []) as_text
      (in_tidy (λ v t. record t { extra_arg = t.extra_arg ++ (v ∷ []) }))

abbrev pub extra_arg_before_option : Spec Options
extra_arg_before_option =
    option_of (codes "-extra-arg-before" ∷ []) as_text
      (in_tidy (λ v t. record t { extra_arg_before = t.extra_arg_before ++ (v ∷ []) }))

abbrev pub quiet_flag : Spec Options
quiet_flag = flag_of (codes "-quiet" ∷ []) (in_tidy (λ v t. record t { quiet = v }) true)

abbrev pub load_option : Spec Options
load_option =
    option_of (codes "-load" ∷ []) as_text
      (in_tidy (λ v t. record t { plugins = t.plugins ++ (v ∷ []) }))

-- The default of `files`, where there are none.
abbrev pub or_all_files : List Text → List Text
or_all_files [] = codes ".*" ∷ []
or_all_files (file ∷ files) = file ∷ files

-- The values of the options that are not given.
abbrev pub defaults : Options
defaults = record {
  build_path = none;
  clang_tidy_binary = [];
  clang_apply_replacements_binary = [];
  tidy = record {
    checks = [];
    header_filter = none;
    allow_enabling_alpha_checkers = false;
    extra_arg = [];
    extra_arg_before = [];
    quiet = false;
    config_file = [];
    config = [];
    line_filter = none;
    use_color = none;
    plugins = [];
  };
  export_fixes = [];
  fix = false;
  format = false;
  style = codes "file";
  j = pos 0;
  files = codes ".*" ∷ [];
}

abbrev pub options_before_yaml : List (Spec Options)
options_before_yaml =
    help_option ∷ alpha_flag ∷ tidy_binary_option ∷ replacements_binary_option ∷ checks_option
    ∷ config_option ∷ config_file_option ∷ header_filter_option ∷ line_filter_option ∷ []

abbrev pub yaml_options : Bool → List (Spec Options)
yaml_options true = export_fixes_option ∷ []
yaml_options false = []

abbrev pub options_after_yaml :
    (lower : Text → Text) (int_of : Text → Option ℤ) → List (Spec Options)
options_after_yaml lower int_of =
    jobs_option int_of
    ∷ fix_flag
    ∷ format_flag
    ∷ style_option
    ∷ use_color_option lower
    ∷ build_path_option
    ∷ extra_arg_option
    ∷ extra_arg_before_option
    ∷ quiet_flag
    ∷ load_option
    ∷ []

-- `has_yaml` tells if `yaml` could be imported.
module _ (has_yaml : Bool) (lower : Text → Text) (int_of : Text → Option ℤ)
    (is_negative_number : Text → Bool) where
  abbrev pub parser : Parser Options
  parser = record {
    specs = options_before_yaml ++ yaml_options has_yaml ++ options_after_yaml lower int_of;
    at_least_one = false;
    store_positional = λ words n. record n { files = or_all_files words };
    is_negative_number = is_negative_number;
  }

  unfoldable pub tidy_args : List Text → Parsed Options
  unfolding parse_args
  tidy_args argv = parse_args parser defaults argv
