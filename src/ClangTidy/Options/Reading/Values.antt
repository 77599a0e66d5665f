-- ===== src/ClangTidy/Options/Reading/Values.antt =====
-- The options of tools/run-clang-tidy.py that have a value, read from the command line that is
-- written of them.
use for_montee.Base.{
  ℤ, ◌≡◌, refl, Bool, true, false, [], ◌∷◌, ◌++◌, Option, none, some, Text, codes,
}
use for_montee.Argparse.{Parser, parse_optional}
use for_montee.Argparse.Parse.{conflicts}
use for_montee.Argparse.Written.{IsProper, Leads, Leads-nil, explicit-Leads, Leads-text}
use for_montee.ClangTidy.Command.{strtobool, with_value, with_text}
use for_montee.ClangTidy.Host.{Options}
use for_montee.ClangTidy.Options.{
  tidy_binary_option, replacements_binary_option, checks_option, header_filter_option,
  line_filter_option, export_fixes_option, jobs_option, style_option, use_color_option,
  build_path_option, parser,
}
use for_montee.ClangTidy.Options.Written.{text_of, color_text}
use for_montee.ClangTidy.Options.Reading.Stages.{
  at_alpha, at_tidy_binary, at_replacements_binary, at_checks, at_header_filter, at_line_filter,
  at_export_fixes, at_jobs, at_format, at_style, at_color, at_build_path,
}

module _ (o : Options) where
  module _ (lower : Text → Text) (int_of : Text → Option ℤ) (is_negative_number : Text → Bool) where
    abbrev p : Parser Options
    p = parser true lower int_of is_negative_number

    pub tidy_binary-Leads :
        IsProper o.clang_tidy_binary
        → Leads p
            (with_text (codes "-clang-tidy-binary=") o.clang_tidy_binary)
            (at_alpha o o.tidy.allow_enabling_alpha_checkers)
            (at_tidy_binary o o.clang_tidy_binary)
    unfolding parse_optional conflicts
    tidy_binary-Leads proper =
        Leads-text (at_tidy_binary o) (codes "-clang-tidy-binary=") o.clang_tidy_binary (
          explicit-Leads p tidy_binary_option _ (codes "-clang-tidy-binary") o.clang_tidy_binary _ _
            refl refl refl (λ seen. refl) proper refl)

    pub replacements_binary-Leads :
        IsProper o.clang_apply_replacements_binary
        → Leads p
            (with_text
              (codes "-clang-apply-replacements-binary=")
              o.clang_apply_replacements_binary)
            (at_tidy_binary o o.clang_tidy_binary)
            (at_replacements_binary o o.clang_apply_replacements_binary)
    unfolding parse_optional conflicts
    replacements_binary-Leads proper =
        Leads-text (at_replacements_binary o) (codes "-clang-apply-replacements-binary=")
          o.clang_apply_replacements_binary
          (explicit-Leads p replacements_binary_option _ (codes "-clang-apply-replacements-binary")
            o.clang_apply_replacements_binary _ _ refl refl refl (λ seen. refl) proper refl)

    pub checks-Leads :
        IsProper o.tidy.checks
        → Leads p
            (with_text (codes "-checks=") o.tidy.checks)
            (at_replacements_binary o o.clang_apply_replacements_binary)
            (at_checks o o.tidy.checks)
    unfolding parse_optional conflicts
    checks-Leads proper = Leads-text (at_checks o) (codes "-checks=") o.tidy.checks (
        explicit-Leads p checks_option _ (codes "-checks") o.tidy.checks _ _ refl refl refl
          (λ seen. refl) proper refl)

    pub header_filter-Leads :
        IsProper (text_of o.tidy.header_filter)
        → Leads p
            (with_value (codes "-header-filter=") o.tidy.header_filter)
            (at_checks o o.tidy.checks)
            (at_header_filter o o.tidy.header_filter)
    unfolding parse_optional conflicts
    header_filter-Leads proper = by_value o.tidy.header_filter proper
      where
        by_value :
            (v : Option Text)
            → IsProper (text_of v)
            → Leads p
                (with_value (codes "-header-filter=") v)
                (at_header_filter o none)
                (at_header_filter o v)
        by_value none proper' = Leads-nil p (at_header_filter o none)
        by_value (some v) proper' =
            explicit-Leads p header_filter_option _ (codes "-header-filter") v _ _ refl refl refl
              (λ seen. refl) proper' refl

    pub line_filter-Leads :
        IsProper (text_of o.tidy.line_filter)
        → Leads p
            (with_value (codes "-line-filter=") o.tidy.line_filter)
            (at_header_filter o o.tidy.header_filter)
            (at_line_filter o o.tidy.line_filter)
    unfolding parse_optional conflicts
    line_filter-Leads proper = by_value o.tidy.line_filter proper
      where
        by_value :
            (v : Option Text)
            → IsProper (text_of v)
            → Leads p
                (with_value (codes "-line-filter=") v)
                (at_line_filter o none)
                (at_line_filter o v)
        by_value none proper' = Leads-nil p (at_line_filter o none)
        by_value (some v) proper' =
            explicit-Leads p line_filter_option _ (codes "-line-filter") v _ _ refl refl refl
              (λ seen. refl) proper' refl

    pub export_fixes-Leads :
        IsProper o.export_fixes
        → Leads p
            (with_text (codes "-export-fixes=") o.export_fixes)
            (at_line_filter o o.tidy.line_filter)
            (at_export_fixes o o.export_fixes)
    unfolding parse_optional conflicts
    export_fixes-Leads proper =
        Leads-text (at_export_fixes o) (codes "-export-fixes=") o.export_fixes (
          explicit-Leads p export_fixes_option _ (codes "-export-fixes") o.export_fixes _ _ refl
            refl refl (λ seen. refl) proper refl)

    pub jobs-Leads :
        (j : Text)
        → int_of j ≡ some o.j
        → IsProper j
        → Leads p ((codes "-j=" ++ j) ∷ []) (at_export_fixes o o.export_fixes) (at_jobs o o.j)
    unfolding parse_optional conflicts
    jobs-Leads j reads proper =
        explicit-Leads p (jobs_option int_of) _ (codes "-j") j _ _ refl refl refl (λ seen. refl)
          proper (rw reads refl)

    pub style-Leads :
        IsProper o.style
        → Leads p ((codes "-style=" ++ o.style) ∷ []) (at_format o o.format) (at_style o o.style)
    unfolding parse_optional conflicts
    style-Leads proper =
        explicit-Leads p style_option _ (codes "-style") o.style _ _ refl refl refl (λ seen. refl)
          proper refl

    pub color-Leads :
        lower (codes "true") ≡ codes "true"
        → lower (codes "false") ≡ codes "false"
        → Leads p (color_text o.tidy.use_color) (at_style o o.style) (at_color o o.tidy.use_color)
    unfolding parse_optional conflicts strtobool
    color-Leads low_true low_false = by_value o.tidy.use_color
      where
        by_value : (v : Option Bool) → Leads p (color_text v) (at_color o none) (at_color o v)
        by_value none = Leads-nil p (at_color o none)
        by_value (some true) =
            explicit-Leads p (use_color_option lower) _ (codes "-use-color") (codes "true") _ _ refl
              refl refl (λ seen. refl) refl (rw low_true refl)
        by_value (some false) =
            explicit-Leads p (use_color_option lower) _ (codes "-use-color") (codes "false") _ _
              refl refl refl (λ seen. refl) refl (rw low_false refl)

    pub build_path-Leads :
        IsProper (text_of o.build_path)
        → Leads p
            (with_value (codes "-p=") o.build_path)
            (at_color o o.tidy.use_color)
            (at_build_path o o.build_path)
    unfolding parse_optional conflicts
    build_path-Leads proper = by_value o.build_path proper
      where
        by_value :
            (v : Option Text)
            → IsProper (text_of v)
            → Leads p (with_value (codes "-p=") v) (at_build_path o none) (at_build_path o v)
        by_value none proper' = Leads-nil p (at_build_path o none)
        by_value (some v) proper' =
            explicit-Leads p build_path_option _ (codes "-p") v _ _ refl refl refl (λ seen. refl)
              proper' refl
