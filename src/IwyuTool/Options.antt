-- ===== src/IwyuTool/Options.antt =====
-- The command line of tools/iwyu_tool.py: what `_bootstrap` declares with `add_argument`, and
-- `parse_args`.
pub mod RoundTrip
use for_montee.Base.{
  ℕ, ℤ, pos, Bool, true, false, List, [], ◌∷◌, Option, none, some, Text, codes, text_eq,
  if◌then◌else◌,
}
use for_montee.Argparse.{Nargs, one, Spec, Parser, Parsed}
use for_montee.Argparse.Actions.{store, option_of, flag_of, help_option, as_text}
use for_montee.Argparse.Parse.{parse_args}
use for_montee.IwyuTool.Execute.{Loads}
use for_montee.IwyuTool.Main.{Format, iwyu, clang, default_format}

-- What the parser makes of the driver's arguments.
pub record DriverArgs (L : Loads) : Type 0 where
  pub verbose : Bool
  pub output_format : Format
  pub jobs : ℤ
  pub load : L.Float
  pub dbpath : Text
  pub source : List Text

-- The `choices` of `--output-format`
abbrev pub format_of : Text → Option Format
format_of value =
    if text_eq value (codes "clang")
    then some clang
    else if text_eq value (codes "iwyu")
    then some iwyu
    else none

-- `int` and `float`, with none for their `ValueError`, and the float that 0 stands for.
pub record Numbers (L : Loads) : Type 0 where
  pub int_of : Text → Option ℤ
  pub float_of : Text → Option L.Float
  pub no_load : L.Float
  pub is_negative_number : Text → Bool

module _ (L : Loads) where
  abbrev pub verbose_flag : Spec (DriverArgs L)
  verbose_flag = flag_of (codes "-v" ∷ codes "--verbose" ∷ []) (λ n. record n { verbose = true })

  abbrev pub output_format_option : Spec (DriverArgs L)
  output_format_option =
      option_of (codes "-o" ∷ codes "--output-format" ∷ []) format_of
        (λ v n. record n { output_format = v })

  abbrev pub jobs_option : (Text → Option ℤ) → Spec (DriverArgs L)
  jobs_option int_of =
      option_of (codes "-j" ∷ codes "--jobs" ∷ []) int_of (λ v n. record n { jobs = v })

  abbrev pub load_option : (Text → Option L.Float) → Spec (DriverArgs L)
  load_option float_of =
      option_of (codes "-l" ∷ codes "--load" ∷ []) float_of (λ v n. record n { load = v })

  abbrev pub build_path_option : Spec (DriverArgs L)
  build_path_option =
      record (option_of (codes "-p" ∷ []) as_text (λ v n. record n { dbpath = v })) {
        required = true;
      }

  module _ (numbers : Numbers L) where
    -- The values of what is not given; there is no default of `-p`, which is required.
    abbrev pub defaults : DriverArgs L
    defaults = record {
      verbose = false;
      output_format = default_format;
      jobs = pos 1;
      load = numbers.no_load;
      dbpath = [];
      source = [];
    }

    abbrev pub parser : Parser (DriverArgs L)
    parser = record {
      specs =
          help_option
          ∷ verbose_flag
          ∷ output_format_option
          ∷ jobs_option numbers.int_of
          ∷ load_option numbers.float_of
          ∷ build_path_option
          ∷ [];
      at_least_one = false;
      store_positional = λ words n. record n { source = words };
      is_negative_number = numbers.is_negative_number;
    }

    unfoldable pub iwyu_args : List Text → Parsed (DriverArgs L)
    unfolding parse_args
    iwyu_args argv = parse_args parser defaults argv
