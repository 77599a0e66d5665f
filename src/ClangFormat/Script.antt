-- ===== src/ClangFormat/Script.antt =====
-- tools/run-clang-format.py from the command line to the status of the process.
use for_montee.Base.{
  ℕ, ◌≡◌, ◌↔◌, ap, ℤ, pos, Bool, false, List, [], ◌∷◌, ◌++◌, Option, Text, codes, All,
}
use for_montee.Argparse.{Parsed, parsed, system_exit, untyped}
use for_montee.ClangFormat.Excludes.{excludes, excludes_from_file}
use for_montee.ClangFormat.ListFiles.{list_files}
use for_montee.ClangFormat.Diff.Formatted.{IsDiff, IsFormatted}
use for_montee.ClangFormat.Program.{Options, Host, Ending, works, status, main}
use for_montee.ClangFormat.Program.Exit.{IsArrival, main-IsFormatted}
use for_montee.ClangFormat.Options.{format_args}

abbrev with_args : Parsed Options → (Options → Ending) → Parsed Ending
with_args (parsed o) f = parsed (f o)
with_args (system_exit status) f = system_exit status
with_args untyped f = untyped

module _ (int_of : Text → Option ℤ) (is_negative_number : Text → Bool) (h : Host) where
  -- `main`, with what it makes of the command line.
  unfoldable pub script : List Text → Parsed Ending
  unfolding format_args main
  script argv = with_args (format_args int_of is_negative_number argv) (main h)

  -- Where the command line is accepted, `clang-format --version` works, the file of excluded
  -- patterns can be read or is missing, `-j` is not negative, neither `--in-place` nor `--dry-run`
  -- is given, `unified_diff` is empty exactly for equal lines and a pool gives each result once in
  -- some order: the program ends, and its status is 0 exactly when every listed file can be read
  -- and clang-format ends with code 0 on it and prints its lines as they are.
  pub script-IsFormatted :
      (argv : List Text) (o : Options) (n : ℕ) (patterns : List Text)
      → format_args int_of is_negative_number argv ≡ parsed o
      → IsDiff h.tools
      → o.args.in_place ≡ false
      → o.args.dry_run ≡ false
      → IsArrival h
      → o.j ≡ pos n
      → h.check_call (o.args.clang_format_executable ∷ codes "--version" ∷ []) ≡ works
      → excludes_from_file h.ignore_file ≡ excludes patterns
      → (e : Ending) × (script argv ≡ parsed e)
        × ((status e ≡ 0)
            ↔ All
                (IsFormatted h.tools o.args)
                (list_files o.extensions (patterns ++ o.exclude) o.recursive h.read_dir o.files))
  unfolding script
  script-IsFormatted argv o n patterns accepted d check real fair count runs read = (
    main h o,
    ap (λ x. with_args x (main h)) accepted,
    main-IsFormatted h o d check real fair n count runs patterns read,
  )
