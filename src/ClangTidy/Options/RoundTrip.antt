-- ===== src/ClangTidy/Options/RoundTrip.antt =====
-- The command line of tools/run-clang-tidy.py and the options that `main` gets of it.
use for_montee.Base.{
  ◌≡◌, refl, ap, ◌∙◌, ℤ, Bool, true, false, ◌||◌, List, [], ◌∷◌, ◌++◌, append_assoc, Option, some,
  Text, codes, is_empty, if◌then◌else◌,
}
use for_montee.Argparse.{Parser, parsed, parse_optional, dashes}
use for_montee.Argparse.Parse.{conflicts, run, finish, complete, remove_dashes, parse_args, lacks}
use for_montee.Argparse.Pieces.{Goes, Goes-nil}
use for_montee.Argparse.Written.{IsProper, at, explicit-Goes, run-dashes}
use for_montee.ClangTidy.Host.{Options}
use for_montee.ClangTidy.Options.{config_option, config_file_option, defaults, parser, tidy_args}
use for_montee.ClangTidy.Options.Written.{IsWritable, config_texts, free_options, written}
use for_montee.ClangTidy.Options.Reading.Stages.{configured}
use for_montee.ClangTidy.Options.Reading.{free_options-Leads}

module _ (lower : Text → Text) (int_of : Text → Option ℤ) (is_negative_number : Text → Bool) where
  abbrev p : Parser Options
  p = parser true lower int_of is_negative_number

  -- `-config` or `-config-file`, or none of them.
  configured-Goes :
      (o : Options)
      → IsProper o.tidy.config
      → IsProper o.tidy.config_file
      → is_empty o.tidy.config || is_empty o.tidy.config_file ≡ true
      → (seen : List Text) × Goes p (config_texts o) (at [] defaults) (at seen (configured o))
  unfolding parse_optional conflicts
  configured-Goes o proper proper' group =
      by_texts o.tidy.config o.tidy.config_file proper proper' group
    where
      with_texts : Text → Text → Options
      with_texts c f = record defaults {
        tidy = record defaults.tidy { config = c; config_file = f };
      }

      by_texts :
          (c f : Text)
          → IsProper c
          → IsProper f
          → is_empty c || is_empty f ≡ true
          → (seen : List Text) × Goes p
              ((if is_empty c then [] else (codes "-config=" ++ c) ∷ [])
                ++ (if is_empty f then [] else (codes "-config-file=" ++ f) ∷ []))
              (at [] defaults)
              (at seen (with_texts c f))
      by_texts [] [] q q' h = ([], Goes-nil p (at [] defaults))
      by_texts [] (x ∷ f) q q' h = (
        codes "-config-file" ∷ [],
        explicit-Goes p config_file_option _ (codes "-config-file") (x ∷ f) _ _ [] refl refl refl
            refl q' refl,
      )
      by_texts (x ∷ c) [] q q' h = (
        codes "-config" ∷ [],
        explicit-Goes p config_option _ (codes "-config") (x ∷ c) _ _ [] refl refl refl refl q refl,
      )
      by_texts (x ∷ c) (y ∷ f) q q' h = absurd (cc h)

  complete-files :
      (o : Options) (seen : List Text)
      → is_empty o.files ≡ false
      → complete p (finish p (dashes ∷ o.files) (at seen (record o { files = defaults.files })))
        ≡ parsed o
  unfolding complete finish remove_dashes lacks
  complete-files o seen some_file = by_files o.files some_file
    where
      by_files :
          (fs : List Text)
          → is_empty fs ≡ false
          → complete p (finish p (dashes ∷ fs) (at seen (record o { files = defaults.files })))
            ≡ parsed (record o { files = fs })
      by_files [] h = absurd (cc h)
      by_files (f ∷ fs) h = refl

  -- Where `yaml` is installed, `int` reads the number of jobs as it is written, `str.lower` leaves
  -- `true` and `false` alone, no value is `--`, there is a file and not both of `-config` and
  -- `-config-file`: the options that are written on a command line, with the files behind `--`,
  -- are what `main` gets.
  pub tidy_args-written :
      (o : Options) (j : Text)
      → int_of j ≡ some o.j
      → lower (codes "true") ≡ codes "true"
      → lower (codes "false") ≡ codes "false"
      → IsWritable o j
      → is_empty o.tidy.config || is_empty o.tidy.config_file ≡ true
      → is_empty o.files ≡ false
      → tidy_args true lower int_of is_negative_number (written o j) ≡ parsed o
  unfolding tidy_args parse_args
  tidy_args-written o j reads low_true low_false writable group some_file =
      let (seen, goes) = configured-Goes o (writable.0) (writable.1) group in
      let (seen', goes') =
        (free_options-Leads o lower int_of is_negative_number j writable reads low_true
            low_false).leads
          seen in
      ap (run p (at [] defaults))
        (append_assoc (config_texts o) (free_options o j) (dashes ∷ o.files))
      ∙ goes (free_options o j ++ (dashes ∷ o.files))
      ∙ goes' (dashes ∷ o.files)
      ∙ run-dashes p (at seen' (record o { files = defaults.files })) o.files
      ∙ complete-files o seen' some_file
