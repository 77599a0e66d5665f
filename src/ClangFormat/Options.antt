-- ===== src/ClangFormat/Options.antt =====
-- The command line of tools/run-clang-format.py: what `main` declares with `add_argument`, and
-- `parse_args`.
pub mod Written
pub mod Reading
pub mod RoundTrip
pub mod Files
use for_montee.Base.{
  ℕ, ℤ, pos, Bool, true, false, List, [], ◌∷◌, ◌++◌, Option, none, some, Text, codes, text_eq,
  split, if◌then◌else◌,
}
use for_montee.Argparse.{Spec, Parser, Parsed}
use for_montee.Argparse.Actions.{option_of, flag_of, help_option, as_text}
use for_montee.Argparse.Parse.{parse_args}
use for_montee.ClangFormat.Diff.{Args}
use for_montee.ClangFormat.Program.{Color, auto, always, never, Options}

abbrev pub default_extensions : Text
default_extensions = codes "c,h,C,H,cpp,hpp,cc,hh,c++,h++,cxx,hxx"

-- `args.extensions.split(',')`
abbrev pub extensions_of : Text → List Text
extensions_of extensions = split b',' extensions

-- The `choices` of `--color`
abbrev pub color_of : Text → Option Color
color_of value =
    if text_eq value (codes "auto")
    then some auto
    else if text_eq value (codes "always")
    then some always
    else if text_eq value (codes "never")
    then some never
    else none

abbrev pub executable_option : Spec Options
executable_option =
    option_of (codes "--clang-format-executable" ∷ []) as_text
      (λ v n. record n { args = record n.args { clang_format_executable = v } })

abbrev pub extensions_option : Spec Options
extensions_option =
    option_of (codes "--extensions" ∷ []) as_text (λ v n. record n { extensions = extensions_of v })

abbrev pub recursive_flag : Spec Options
recursive_flag =
    flag_of (codes "-r" ∷ codes "--recursive" ∷ []) (λ n. record n { recursive = true })

abbrev pub dry_run_flag : Spec Options
dry_run_flag =
    flag_of (codes "-d" ∷ codes "--dry-run" ∷ [])
      (λ n. record n { args = record n.args { dry_run = true } })

abbrev pub in_place_flag : Spec Options
in_place_flag =
    flag_of (codes "-i" ∷ codes "--in-place" ∷ [])
      (λ n. record n { args = record n.args { in_place = true } })

abbrev pub quiet_flag : Spec Options
quiet_flag = flag_of (codes "-q" ∷ codes "--quiet" ∷ []) (λ n. record n { quiet = true })

-- `int_of` is `int`, and none its `ValueError`.
abbrev pub jobs_option : (Text → Option ℤ) → Spec Options
jobs_option int_of = option_of (codes "-j" ∷ []) int_of (λ v n. record n { j = v })

abbrev pub color_option : Spec Options
color_option = option_of (codes "--color" ∷ []) color_of (λ v n. record n { color = v })

abbrev pub exclude_option : Spec Options
exclude_option =
    option_of (codes "-e" ∷ codes "--exclude" ∷ []) as_text
      (λ v n. record n { exclude = n.exclude ++ (v ∷ []) })

abbrev pub style_option : Spec Options
style_option =
    option_of (codes "--style" ∷ []) as_text
      (λ v n. record n { args = record n.args { style = v } })

-- The values of the options that are not given.
abbrev pub defaults : Options
defaults = record {
  args = record {
    clang_format_executable = codes "clang-format";
    style = [];
    in_place = false;
    dry_run = false;
  };
  extensions = extensions_of default_extensions;
  recursive = false;
  quiet = false;
  exclude = [];
  files = [];
  j = pos 0;
  color = auto;
}

module _ (int_of : Text → Option ℤ) (is_negative_number : Text → Bool) where
  abbrev pub parser : Parser Options
  parser = record {
    specs =
        help_option
        ∷ executable_option
        ∷ extensions_option
        ∷ recursive_flag
        ∷ dry_run_flag
        ∷ in_place_flag
        ∷ quiet_flag
        ∷ jobs_option int_of
        ∷ color_option
        ∷ exclude_option
        ∷ style_option
        ∷ [];
    at_least_one = true;
    store_positional = λ words n. record n { files = words };
    is_negative_number = is_negative_number;
  }

  unfoldable pub format_args : List Text → Parsed Options
  unfolding parse_args
  format_args argv = parse_args parser defaults argv
