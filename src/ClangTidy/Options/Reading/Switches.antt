-- ===== src/ClangTidy/Options/Reading/Switches.antt =====
-- The flags and the options of tools/run-clang-tidy.py that may be repeated, read from the command
-- line that is written of them.
use for_montee.Base.{ℤ, refl, Bool, true, [], Option, Text, codes}
use for_montee.Argparse.{Parser, parse_optional}
use for_montee.Argparse.Parse.{conflicts}
use for_montee.Argparse.Written.{Leads, explicit-Leads, flag-Leads, Leads-flag, Leads-list}
use for_montee.ClangTidy.Command.{flag_if}
use for_montee.ClangTidy.Host.{Options}
use for_montee.ClangTidy.Options.{
  alpha_flag, fix_flag, format_flag, extra_arg_option, extra_arg_before_option, quiet_flag,
  load_option, parser,
}
use for_montee.ClangTidy.Options.Written.{AllProper, prefixed}
use for_montee.ClangTidy.Options.Reading.Stages.{
  configured, at_alpha, at_jobs, at_fix, at_format, at_build_path, at_extra_arg,
  at_extra_arg_before, at_quiet, at_load,
}

module _ (o : Options) where
  module _ (lower : Text → Text) (int_of : Text → Option ℤ) (is_negative_number : Text → Bool) where
    abbrev p : Parser Options
    p = parser true lower int_of is_negative_number

    pub alpha-Leads :
        Leads p
          (flag_if o.tidy.allow_enabling_alpha_checkers (codes "-allow-enabling-alpha-checkers"))
          (configured o)
          (at_alpha o o.tidy.allow_enabling_alpha_checkers)
    unfolding parse_optional conflicts
    alpha-Leads =
        Leads-flag (at_alpha o) (λ v. flag_if v (codes "-allow-enabling-alpha-checkers"))
          o.tidy.allow_enabling_alpha_checkers refl
          (flag-Leads p alpha_flag _ (codes "-allow-enabling-alpha-checkers") _ _ refl refl refl
            refl (λ seen. refl) refl)

    pub fix-Leads : Leads p (flag_if o.fix (codes "-fix")) (at_jobs o o.j) (at_fix o o.fix)
    unfolding parse_optional conflicts
    fix-Leads =
        Leads-flag (at_fix o) (λ v. flag_if v (codes "-fix")) o.fix refl
          (flag-Leads p fix_flag _ (codes "-fix") _ _ refl refl refl refl (λ seen. refl) refl)

    pub format-Leads :
        Leads p (flag_if o.format (codes "-format")) (at_fix o o.fix) (at_format o o.format)
    unfolding parse_optional conflicts
    format-Leads =
        Leads-flag (at_format o) (λ v. flag_if v (codes "-format")) o.format refl
          (flag-Leads p format_flag _ (codes "-format") _ _ refl refl refl refl (λ seen. refl) refl)

    pub extra_arg-Leads :
        AllProper o.tidy.extra_arg
        → Leads p
            (prefixed (codes "-extra-arg=") o.tidy.extra_arg)
            (at_build_path o o.build_path)
            (at_extra_arg o o.tidy.extra_arg)
    unfolding parse_optional conflicts
    extra_arg-Leads =
        Leads-list (at_extra_arg o) (codes "-extra-arg=") [] o.tidy.extra_arg (λ done v proper.
          explicit-Leads p extra_arg_option _ (codes "-extra-arg") v _ _ refl refl refl
            (λ seen. refl) proper refl)

    pub extra_arg_before-Leads :
        AllProper o.tidy.extra_arg_before
        → Leads p
            (prefixed (codes "-extra-arg-before=") o.tidy.extra_arg_before)
            (at_extra_arg o o.tidy.extra_arg)
            (at_extra_arg_before o o.tidy.extra_arg_before)
    unfolding parse_optional conflicts
    extra_arg_before-Leads =
        Leads-list (at_extra_arg_before o) (codes "-extra-arg-before=") [] o.tidy.extra_arg_before
          (λ done v proper.
            explicit-Leads p extra_arg_before_option _ (codes "-extra-arg-before") v _ _ refl refl
              refl (λ seen. refl) proper refl)

    pub quiet-Leads :
        Leads p
          (flag_if o.tidy.quiet (codes "-quiet"))
          (at_extra_arg_before o o.tidy.extra_arg_before)
          (at_quiet o o.tidy.quiet)
    unfolding parse_optional conflicts
    quiet-Leads =
        Leads-flag (at_quiet o) (λ v. flag_if v (codes "-quiet")) o.tidy.quiet refl
          (flag-Leads p quiet_flag _ (codes "-quiet") _ _ refl refl refl refl (λ seen. refl) refl)

    pub load-Leads :
        AllProper o.tidy.plugins
        → Leads p
            (prefixed (codes "-load=") o.tidy.plugins)
            (at_quiet o o.tidy.quiet)
            (at_load o o.tidy.plugins)
    unfolding parse_optional conflicts
    load-Leads = Leads-list (at_load o) (codes "-load=") [] o.tidy.plugins (λ done v proper.
        explicit-Leads p load_option _ (codes "-load") v _ _ refl refl refl (λ seen. refl) proper
          refl)
