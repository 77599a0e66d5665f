-- ===== src/ClangFormat/Options/RoundTrip.antt =====
-- The command line of tools/run-clang-format.py and the options that `main` gets of it.
use for_montee.Base.{
  All, join, split-join, codes, ◌==◌, ◌≡◌, refl, ◌∙◌, ℤ, Bool, false, List, [], ◌∷◌, Option, some,
  Text, is_empty,
}
use for_montee.Argparse.{Parser, parsed, dashes}
use for_montee.Argparse.Parse.{finish, complete, remove_dashes, parse_args, lacks}
use for_montee.Argparse.Written.{at, run-dashes}
use for_montee.ClangFormat.Program.{Options}
use for_montee.ClangFormat.Options.{parser, format_args, extensions_of}
use for_montee.ClangFormat.Options.Written.{IsWritable, extensions_text, written}
use for_montee.ClangFormat.Options.Reading.{options_text-Leads}

module _ (int_of : Text → Option ℤ) (is_negative_number : Text → Bool) where
  abbrev p : Parser Options
  p = parser int_of is_negative_number

  complete-files :
      (o : Options) (seen : List Text)
      → is_empty o.files ≡ false
      → complete p (finish p (dashes ∷ o.files) (at seen (record o { files = [] }))) ≡ parsed o
  unfolding complete finish remove_dashes lacks
  complete-files o seen some_file = by_files o.files some_file
    where
      by_files :
          (fs : List Text)
          → is_empty fs ≡ false
          → complete p (finish p (dashes ∷ fs) (at seen (record o { files = [] })))
            ≡ parsed (record o { files = fs })
      by_files [] h = absurd (cc h)
      by_files (f ∷ fs) h = refl

  format_args_text :
      (o : Options) (e j : Text)
      → extensions_of e ≡ o.extensions
      → int_of j ≡ some o.j
      → IsWritable o e j
      → is_empty o.files ≡ false
      → format_args int_of is_negative_number (written o e j) ≡ parsed o
  unfolding format_args parse_args
  format_args_text o e j splits reads writable some_file =
      let (seen, goes) =
        (options_text-Leads o int_of is_negative_number e j writable splits reads).leads [] in
      goes (dashes ∷ o.files)
      ∙ run-dashes p (at seen (record o { files = [] })) o.files
      ∙ complete-files o seen some_file

  -- Where `int` reads the number of jobs as it is written, there are extensions and none of them
  -- holds a comma, no value is `--` and there is a file: the options that are written on a command
  -- line, with commas between the extensions and the files behind `--`, are what `main` gets.
  pub format_args-written :
      (o : Options) (j : Text)
      → int_of j ≡ some o.j
      → is_empty o.extensions ≡ false
      → All (All (λ c. c == b',' ≡ false)) o.extensions
      → IsWritable o (extensions_text o) j
      → is_empty o.files ≡ false
      → format_args int_of is_negative_number (written o (extensions_text o) j) ≡ parsed o
  format_args-written o j reads some_extension commas writable some_file =
      format_args_text o (extensions_text o) j (by_extensions o.extensions some_extension commas)
        reads writable some_file
    where
      by_extensions :
          (xs : List Text)
          → is_empty xs ≡ false
          → All (All (λ c. c == b',' ≡ false)) xs
          → extensions_of (join (codes ",") xs) ≡ xs
      by_extensions [] h h' = absurd (cc h)
      by_extensions (x ∷ xs) h h' = split-join b',' x xs h'
