-- ===== src/ClangFormat/Options/Reading.antt =====
-- Each option of tools/run-clang-format.py, read from the command line that is written of it.
use for_montee.Base.{
  ℤ, ◌≡◌, refl, Bool, false, List, [], ◌∷◌, ◌++◌, map, Option, some, Text, codes, contains,
  is_empty, if◌then◌else◌,
}
use for_montee.Argparse.{Parser, parse_optional, dashes}
use for_montee.Argparse.Parse.{conflicts}
use for_montee.Argparse.Written.{
  IsProper, Leads, ◌⨟◌, explicit-Leads, flag-Leads, Leads-flag, Leads-text, Leads-list,
}
use for_montee.ClangFormat.Program.{Color, auto, always, never, Options}
use for_montee.ClangFormat.Options.{
  executable_option, extensions_option, recursive_flag, dry_run_flag, in_place_flag, quiet_flag,
  jobs_option, color_option, exclude_option, style_option, defaults, parser, extensions_of,
}
use for_montee.ClangFormat.Options.Written.{IsWritable, flag_if, color_text, options_text}

-- The namespace when the options are read in turn; each sets the field of the option that comes
-- next.
module _ (o : Options) where
  abbrev pub at_executable : Text → Options
  at_executable v = record (defaults) {
    args = record (defaults).args { clang_format_executable = v };
  }

  abbrev pub at_extensions : List Text → Options
  at_extensions v = record (at_executable o.args.clang_format_executable) { extensions = v }

  abbrev pub at_recursive : Bool → Options
  at_recursive v = record (at_extensions o.extensions) { recursive = v }

  abbrev pub at_dry_run : Bool → Options
  at_dry_run v = record (at_recursive o.recursive) {
    args = record (at_recursive o.recursive).args { dry_run = v };
  }

  abbrev pub at_in_place : Bool → Options
  at_in_place v = record (at_dry_run o.args.dry_run) {
    args = record (at_dry_run o.args.dry_run).args { in_place = v };
  }

  abbrev pub at_quiet : Bool → Options
  at_quiet v = record (at_in_place o.args.in_place) { quiet = v }

  abbrev pub at_jobs : ℤ → Options
  at_jobs v = record (at_quiet o.quiet) { j = v }

  abbrev pub at_color : Color → Options
  at_color v = record (at_jobs o.j) { color = v }

  abbrev pub at_exclude : List Text → Options
  at_exclude v = record (at_color o.color) { exclude = v }

  abbrev pub at_style : Text → Options
  at_style v = record (at_exclude o.exclude) {
    args = record (at_exclude o.exclude).args { style = v };
  }

  module _ (int_of : Text → Option ℤ) (is_negative_number : Text → Bool) where
    abbrev p : Parser Options
    p = parser int_of is_negative_number

    pub executable-Leads :
        IsProper o.args.clang_format_executable
        → Leads p
            ((codes "--clang-format-executable=" ++ o.args.clang_format_executable) ∷ [])
            (defaults)
            (at_executable o.args.clang_format_executable)
    unfolding parse_optional conflicts
    executable-Leads proper =
        explicit-Leads p executable_option _ (codes "--clang-format-executable")
          o.args.clang_format_executable _ _ refl refl refl (λ seen. refl) proper refl

    pub extensions-Leads :
        (e : Text)
        → extensions_of e ≡ o.extensions
        → IsProper e
        → Leads p
            ((codes "--extensions=" ++ e) ∷ [])
            (at_executable o.args.clang_format_executable)
            (at_extensions o.extensions)
    unfolding parse_optional conflicts
    extensions-Leads e reads proper =
        explicit-Leads p extensions_option _ (codes "--extensions") e _ _ refl refl refl
          (λ seen. refl) proper (rw reads refl)

    pub recursive-Leads :
        Leads p
          (flag_if o.recursive (codes "--recursive"))
          (at_extensions o.extensions)
          (at_recursive o.recursive)
    unfolding parse_optional conflicts
    recursive-Leads =
        Leads-flag at_recursive (λ v. flag_if v (codes "--recursive")) o.recursive refl
          (flag-Leads p recursive_flag _ (codes "--recursive") _ _ refl refl refl refl
            (λ seen. refl) refl)

    pub dry_run-Leads :
        Leads p
          (flag_if o.args.dry_run (codes "--dry-run"))
          (at_recursive o.recursive)
          (at_dry_run o.args.dry_run)
    unfolding parse_optional conflicts
    dry_run-Leads =
        Leads-flag at_dry_run (λ v. flag_if v (codes "--dry-run")) o.args.dry_run refl
          (flag-Leads p dry_run_flag _ (codes "--dry-run") _ _ refl refl refl refl (λ seen. refl)
            refl)

    pub in_place-Leads :
        Leads p
          (flag_if o.args.in_place (codes "--in-place"))
          (at_dry_run o.args.dry_run)
          (at_in_place o.args.in_place)
    unfolding parse_optional conflicts
    in_place-Leads =
        Leads-flag at_in_place (λ v. flag_if v (codes "--in-place")) o.args.in_place refl
          (flag-Leads p in_place_flag _ (codes "--in-place") _ _ refl refl refl refl (λ seen. refl)
            refl)

    pub quiet-Leads :
        Leads p (flag_if o.quiet (codes "--quiet")) (at_in_place o.args.in_place) (at_quiet o.quiet)
    unfolding parse_optional conflicts
    quiet-Leads =
        Leads-flag at_quiet (λ v. flag_if v (codes "--quiet")) o.quiet refl
          (flag-Leads p quiet_flag _ (codes "--quiet") _ _ refl refl refl refl (λ seen. refl) refl)

    pub jobs-Leads :
        (j : Text)
        → int_of j ≡ some o.j
        → IsProper j
        → Leads p ((codes "-j=" ++ j) ∷ []) (at_quiet o.quiet) (at_jobs o.j)
    unfolding parse_optional conflicts
    jobs-Leads j reads proper =
        explicit-Leads p (jobs_option int_of) _ (codes "-j") j _ _ refl refl refl (λ seen. refl)
          proper (rw reads refl)

    pub color-Leads :
        Leads p ((codes "--color=" ++ color_text o.color) ∷ []) (at_jobs o.j) (at_color o.color)
    unfolding parse_optional conflicts
    color-Leads = by_color o.color
      where
        by_color :
            (v : Color)
            → Leads p ((codes "--color=" ++ color_text v) ∷ []) (at_color auto) (at_color v)
        by_color auto =
            explicit-Leads p color_option _ (codes "--color") (codes "auto") _ _ refl refl refl
              (λ seen. refl) refl refl
        by_color always =
            explicit-Leads p color_option _ (codes "--color") (codes "always") _ _ refl refl refl
              (λ seen. refl) refl refl
        by_color never =
            explicit-Leads p color_option _ (codes "--color") (codes "never") _ _ refl refl refl
              (λ seen. refl) refl refl

    pub exclude-Leads :
        contains o.exclude dashes ≡ false
        → Leads p
            (map (λ v. codes "--exclude=" ++ v) o.exclude)
            (at_color o.color)
            (at_exclude o.exclude)
    unfolding parse_optional conflicts
    exclude-Leads = Leads-list at_exclude (codes "--exclude=") [] o.exclude (λ done v proper.
        explicit-Leads p exclude_option _ (codes "--exclude") v _ _ refl refl refl (λ seen. refl)
          proper refl)

    pub style-Leads :
        IsProper o.args.style
        → Leads p
            (if is_empty o.args.style then [] else (codes "--style=" ++ o.args.style) ∷ [])
            (at_exclude o.exclude)
            (at_style o.args.style)
    unfolding parse_optional conflicts
    style-Leads proper = Leads-text at_style (codes "--style=") o.args.style (
        explicit-Leads p style_option _ (codes "--style") o.args.style _ _ refl refl refl
          (λ seen. refl) proper refl)

    -- All options, read in the order in which they are written.
    pub options_text-Leads :
        (e j : Text)
        → IsWritable o e j
        → extensions_of e ≡ o.extensions
        → int_of j ≡ some o.j
        → Leads p (options_text o e j) defaults (record o { files = [] })
    options_text-Leads e j (q1, q2, q3, q4, q5) splits reads =
        executable-Leads q1
        ⨟ extensions-Leads e splits q2
        ⨟ recursive-Leads
        ⨟ dry_run-Leads
        ⨟ in_place-Leads
        ⨟ quiet-Leads
        ⨟ jobs-Leads j reads q3
        ⨟ color-Leads
        ⨟ exclude-Leads q4
        ⨟ style-Leads q5
