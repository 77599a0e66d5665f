-- ===== src/ClangTidy/Options/Reading/Stages.antt =====
-- The options of tools/run-clang-tidy.py while they are read.
use for_montee.Base.{ℤ, Bool, List, Option, Text}
use for_montee.ClangTidy.Host.{Options}
use for_montee.ClangTidy.Options.{defaults}

-- The namespace when the options are read in turn, from one that has `config` and
-- `config_file` alone; each sets the field of the option that comes next.
module _ (o : Options) where
  abbrev pub configured : Options
  configured = record defaults {
    tidy = record defaults.tidy { config = o.tidy.config; config_file = o.tidy.config_file };
  }

  abbrev pub at_alpha : Bool → Options
  at_alpha v = record (configured) {
    tidy = record (configured).tidy { allow_enabling_alpha_checkers = v };
  }

  abbrev pub at_tidy_binary : Text → Options
  at_tidy_binary v = record (at_alpha o.tidy.allow_enabling_alpha_checkers) {
    clang_tidy_binary = v;
  }

  abbrev pub at_replacements_binary : Text → Options
  at_replacements_binary v = record (at_tidy_binary o.clang_tidy_binary) {
    clang_apply_replacements_binary = v;
  }

  abbrev pub at_checks : Text → Options
  at_checks v = record (at_replacements_binary o.clang_apply_replacements_binary) {
    tidy = record (at_replacements_binary o.clang_apply_replacements_binary).tidy { checks = v };
  }

  abbrev pub at_header_filter : Option Text → Options
  at_header_filter v = record (at_checks o.tidy.checks) {
    tidy = record (at_checks o.tidy.checks).tidy { header_filter = v };
  }

  abbrev pub at_line_filter : Option Text → Options
  at_line_filter v = record (at_header_filter o.tidy.header_filter) {
    tidy = record (at_header_filter o.tidy.header_filter).tidy { line_filter = v };
  }

  abbrev pub at_export_fixes : Text → Options
  at_export_fixes v = record (at_line_filter o.tidy.line_filter) { export_fixes = v }

  abbrev pub at_jobs : ℤ → Options
  at_jobs v = record (at_export_fixes o.export_fixes) { j = v }

  abbrev pub at_fix : Bool → Options
  at_fix v = record (at_jobs o.j) { fix = v }

  abbrev pub at_format : Bool → Options
  at_format v = record (at_fix o.fix) { format = v }

  abbrev pub at_style : Text → Options
  at_style v = record (at_format o.format) { style = v }

  abbrev pub at_color : Option Bool → Options
  at_color v = record (at_style o.style) { tidy = record (at_style o.style).tidy { use_color = v } }

  abbrev pub at_build_path : Option Text → Options
  at_build_path v = record (at_color o.tidy.use_color) { build_path = v }

  abbrev pub at_extra_arg : List Text → Options
  at_extra_arg v = record (at_build_path o.build_path) {
    tidy = record (at_build_path o.build_path).tidy { extra_arg = v };
  }

  abbrev pub at_extra_arg_before : List Text → Options
  at_extra_arg_before v = record (at_extra_arg o.tidy.extra_arg) {
    tidy = record (at_extra_arg o.tidy.extra_arg).tidy { extra_arg_before = v };
  }

  abbrev pub at_quiet : Bool → Options
  at_quiet v = record (at_extra_arg_before o.tidy.extra_arg_before) {
    tidy = record (at_extra_arg_before o.tidy.extra_arg_before).tidy { quiet = v };
  }

  abbrev pub at_load : List Text → Options
  at_load v = record (at_quiet o.tidy.quiet) {
    tidy = record (at_quiet o.tidy.quiet).tidy { plugins = v };
  }
