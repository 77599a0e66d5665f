-- ===== src/IwyuTool/Options/RoundTrip.antt =====
-- The driver's options of tools/iwyu_tool.py, written on a command line and read back.
use for_montee.Base.{
  ◌≡◌, refl, ◌∙◌, ℤ, Bool, true, false, List, [], ◌∷◌, ◌++◌, some, Text, codes, contains,
}
use for_montee.Argparse.{Parser, parsed, dashes, parse_optional}
use for_montee.Argparse.Parse.{conflicts, finish, complete, parse_args, lacks}
use for_montee.Argparse.Pieces.{Goes}
use for_montee.Argparse.Written.{
  IsProper, at, Leads, ◌⨟◌, explicit-Goes, explicit-Leads, flag-Leads, Leads-flag,
}
use for_montee.Argparse.Words.{
  all_words, run-words, contains-end, contains-words, remove_dashes-words,
}
use for_montee.IwyuTool.Execute.{Loads}
use for_montee.IwyuTool.Main.{Format, iwyu, clang}
use for_montee.IwyuTool.Options.{
  DriverArgs, Numbers, verbose_flag, output_format_option, jobs_option, load_option,
  build_path_option, defaults, parser, iwyu_args,
}

abbrev verbose_text : Bool → List Text
verbose_text true = codes "--verbose" ∷ []
verbose_text false = []

abbrev format_text : Format → Text
format_text iwyu = codes "iwyu"
format_text clang = codes "clang"

module _ (L : Loads) (a : DriverArgs L) where
  -- `j` and `l` are the number of jobs and the load as they are written.
  abbrev pub options_text : (j l : Text) → List Text
  options_text j l =
      verbose_text a.verbose
      ++ ((codes "--output-format=" ++ format_text a.output_format) ∷ [])
      ++ ((codes "--jobs=" ++ j) ∷ [])
      ++ ((codes "--load=" ++ l) ∷ [])

  -- The driver's arguments: the options, and the sources as words.
  abbrev pub written : (j l : Text) → List Text
  written j l = options_text j l ++ (((codes "-p=" ++ a.dbpath) ∷ []) ++ a.source)

  module _ (numbers : Numbers L) where
    abbrev p : Parser (DriverArgs L)
    p = parser L numbers

    abbrev at_verbose : Bool → DriverArgs L
    at_verbose v = record (defaults L numbers) { verbose = v }

    abbrev at_format : Format → DriverArgs L
    at_format v = record (at_verbose a.verbose) { output_format = v }

    abbrev at_jobs : ℤ → DriverArgs L
    at_jobs v = record (at_format a.output_format) { jobs = v }

    abbrev at_load : L.Float → DriverArgs L
    at_load v = record (at_jobs a.jobs) { load = v }

    verbose-Leads : Leads p (verbose_text a.verbose) (defaults L numbers) (at_verbose a.verbose)
    unfolding parse_optional conflicts
    verbose-Leads = Leads-flag at_verbose verbose_text a.verbose refl (
        flag-Leads p (verbose_flag L) _ (codes "--verbose") _ _ refl refl refl refl (λ seen. refl)
          refl)

    format-Leads :
        Leads p
          ((codes "--output-format=" ++ format_text a.output_format) ∷ [])
          (at_verbose a.verbose)
          (at_format a.output_format)
    unfolding parse_optional conflicts
    format-Leads = by_format a.output_format
      where
        by_format :
            (v : Format)
            → Leads p
                ((codes "--output-format=" ++ format_text v) ∷ [])
                (at_format iwyu)
                (at_format v)
        by_format iwyu =
            explicit-Leads p (output_format_option L) _ (codes "--output-format") (codes "iwyu") _ _
              refl refl refl (λ seen. refl) refl refl
        by_format clang =
            explicit-Leads p (output_format_option L) _ (codes "--output-format") (codes "clang") _
              _ refl refl refl (λ seen. refl) refl refl

    options_text-Leads :
        (j l : Text)
        → numbers.int_of j ≡ some a.jobs
        → numbers.float_of l ≡ some a.load
        → IsProper j
        → IsProper l
        → Leads p (options_text j l) (defaults L numbers) (at_load a.load)
    unfolding parse_optional conflicts
    options_text-Leads j l reads reads' proper proper' =
        verbose-Leads
        ⨟ format-Leads
        ⨟ explicit-Leads p (jobs_option L numbers.int_of) _ (codes "--jobs") j _ (at_jobs a.jobs)
            refl refl refl (λ seen. refl) proper (rw reads refl)
        ⨟ explicit-Leads p (load_option L numbers.float_of) _ (codes "--load") l _ _ refl refl refl
            (λ seen. refl) proper' (rw reads' refl)

    build_path-Goes :
        (seen : List Text)
        → IsProper a.dbpath
        → Goes p
            ((codes "-p=" ++ a.dbpath) ∷ [])
            (at seen (at_load a.load))
            (at (seen ++ (codes "-p" ∷ [])) (record a { source = [] }))
    unfolding parse_optional conflicts
    build_path-Goes seen proper =
        explicit-Goes p (build_path_option L) _ (codes "-p") a.dbpath _ _ seen refl refl refl refl
          proper refl

    complete-source :
        (seen : List Text)
        → all_words a.source ≡ true
        → complete p (finish p a.source (at (seen ++ (codes "-p" ∷ [])) (record a { source = [] })))
          ≡ parsed a
    unfolding complete finish lacks
    complete-source seen words =
        rw (remove_dashes-words a.source words, contains-end seen (codes "-p")) refl

    -- Where `int` and `float` read the number of jobs and the load as they are written, no value
    -- is `--` and the sources do not start with `-`: what the parser makes of the driver's
    -- arguments that are written for the options are these options.
    pub iwyu_args-written :
        (j l : Text)
        → numbers.int_of j ≡ some a.jobs
        → numbers.float_of l ≡ some a.load
        → IsProper j
        → IsProper l
        → IsProper a.dbpath
        → all_words a.source ≡ true
        → iwyu_args L numbers (written j l) ≡ parsed a
    unfolding iwyu_args parse_args
    iwyu_args-written j l reads reads' proper proper' path words =
        let (seen, goes) = (options_text-Leads j l reads reads' proper proper').leads [] in
        goes (((codes "-p=" ++ a.dbpath) ∷ []) ++ a.source)
        ∙ build_path-Goes seen path a.source
        ∙ run-words p (at (seen ++ (codes "-p" ∷ [])) (record a { source = [] })) a.source words
        ∙ complete-source seen words

  -- The driver's arguments hold no `--`.
  pub written-dashes :
      (j l : Text) → all_words a.source ≡ true → contains (written j l) dashes ≡ false
  unfolding contains
  written-dashes j l words = by_flag a.verbose
    where
      by_flag :
          (v : Bool)
          → contains
              (verbose_text v
                ++ ((codes "--output-format=" ++ format_text a.output_format) ∷ [])
                ++ ((codes "--jobs=" ++ j) ∷ [])
                ++ ((codes "--load=" ++ l) ∷ [])
                ++ (((codes "-p=" ++ a.dbpath) ∷ []) ++ a.source))
              dashes
            ≡ false
      by_flag true = contains-words a.source words
      by_flag false = contains-words a.source words
