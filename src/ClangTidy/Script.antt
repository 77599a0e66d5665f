-- ===== src/ClangTidy/Script.antt =====
-- tools/run-clang-tidy.py from the command line to the status of the process.
use for_montee.Base.{
  ℕ, ◌≡◌, ◌↔◌, ◌⊎◌, inl, inr, ap, sym, ◌∙◌, subst, ℤ, Bool, List, Option, none, Text,
}
use for_montee.Argparse.{Parsed, parsed, system_exit, untyped}
use for_montee.ClangTidy.Host.{Options, Host, Ending}
use for_montee.ClangTidy.Options.{tidy_args}
use for_montee.ClangTidy.Main.{Runs}
use for_montee.ClangTidy.Main.Names.{IsOrder}
use for_montee.ClangTidy.Main.Success.{Success, main-Success}

abbrev options_of : Options → Parsed Options → Options
options_of o (parsed o') = o'
options_of o (system_exit status) = o
options_of o untyped = o

module _ {D : Type 0} (h : Host D) (lower : Text → Text) (int_of : Text → Option ℤ)
    (is_negative_number : Text → Bool) (argv : List Text) where
  -- What the parser of `main` makes of the command line.
  abbrev pub read_argv : Parsed Options
  read_argv = tidy_args h.has_yaml lower int_of is_negative_number argv

  -- How the program can end: by `parse_args`, with nothing left behind, or as `main` does behind
  -- it.
  pub data ScriptRuns : Ending → Type 0 where
    exits :
        (status : ℕ)
        → read_argv ≡ system_exit status
        → ScriptRuns (record { status = status; left = none })
    goes_on : (o : Options) (e : Ending) → read_argv ≡ parsed o → Runs h o e → ScriptRuns e

  abbrev pub Promise : Type 0
  Promise = (o : Options) × (read_argv ≡ parsed o) × Success h o

  -- However tools/run-clang-tidy.py comes to its end, on whatever command line, its status is 0
  -- exactly when the command line asks for the help, or it is accepted and, for its options, the
  -- program got ready, clang-tidy ended with 0 on each path of the database that the filter
  -- matches, neither exporting nor applying the fixes raised an exception, and the temporary
  -- directory could be removed. Python goes through a set in some order.
  pub script-Success :
      (e : Ending)
      → IsOrder h.order
      → ScriptRuns e
      → (e.status ≡ 0) ↔ ((read_argv ≡ system_exit 0) ⊎ Promise)
  script-Success _ fair (exits status stopped) = (
    λ zero_status. inl (stopped ∙ ap system_exit zero_status),
    elim [ inl helped ↦ cc | inr (o, accepted, success) ↦ absurd (cc) ],
  )
  script-Success _ fair (goes_on o e accepted path) =
      let (there, back) = main-Success h o e fair path in
      (
        λ zero_status. inr (o, accepted, there zero_status),
        elim [
          | inl helped ↦ absurd (cc)
          | inr (o', accepted', success) ↦
              back (subst (Success h) (ap (options_of o) (sym accepted' ∙ accepted)) success)
        ],
      )
