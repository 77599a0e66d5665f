-- ===== src/ClangFormat/Options/Files.antt =====
-- What tools/run-clang-format.py is given to format, whatever the command line.
use for_montee.Base.{
  ◌≡◌, refl, ℤ, Bool, true, false, List, [], ◌∷◌, Option, Text, is_empty, All, Bool-cases, inl, inr,
  subst,
}
use for_montee.Argparse.{Parser, parsed}
use for_montee.Argparse.Actions.{as_text}
use for_montee.Argparse.Parse.{State, flush, finish, complete, remove_dashes}
use for_montee.Argparse.Invariant.{ParsedHolds, IsKeeping, parse_args-Holds}
use for_montee.Argparse.Keeping.{complete-Holds, store-Keeps, flag_of-Keeps, help_option-Keeps}
use for_montee.ClangFormat.Program.{Options}
use for_montee.ClangFormat.Options.{parser, defaults, format_args, color_of}

-- The files are there as soon as the positional argument has been consumed.
abbrev HasFiles : State Options → Type 0
HasFiles s = s.consumed ≡ true → is_empty s.namespace.files ≡ false

abbrev IsRunnable : Options → Type 0
IsRunnable o = is_empty o.files ≡ false

module _ (int_of : Text → Option ℤ) (is_negative_number : Text → Bool) where
  abbrev p : Parser Options
  p = parser int_of is_negative_number

  every_option : All (IsKeeping p HasFiles IsRunnable) p.specs
  every_option = (
    help_option-Keeps p HasFiles IsRunnable,
    (
      store-Keeps p HasFiles IsRunnable _ as_text _ refl (λ v s here free. here),
      (
        store-Keeps p HasFiles IsRunnable _ as_text _ refl (λ v s here free. here),
        (
          flag_of-Keeps p HasFiles IsRunnable _ _ (λ s here. here),
          (
            flag_of-Keeps p HasFiles IsRunnable _ _ (λ s here. here),
            (
              flag_of-Keeps p HasFiles IsRunnable _ _ (λ s here. here),
              (
                flag_of-Keeps p HasFiles IsRunnable _ _ (λ s here. here),
                (
                  store-Keeps p HasFiles IsRunnable _ int_of _ refl (λ v s here free. here),
                  (
                    store-Keeps p HasFiles IsRunnable _ color_of _ refl (λ v s here free. here),
                    (
                      store-Keeps p HasFiles IsRunnable _ as_text _ refl (λ v s here free. here),
                      (
                        store-Keeps p HasFiles IsRunnable _ as_text _ refl (λ v s here free. here),
                        tt,
                      ),
                    ),
                  ),
                ),
              ),
            ),
          ),
        ),
      ),
    ),
  )

  flushes : (words : List Text) (s : State Options) → HasFiles s → HasFiles (flush p words s)
  unfolding flush
  flushes [] s here = here
  flushes (word ∷ words) s here = elim (Bool-cases s.consumed) [
    | inl done ↦ rw done (λ c. here done)
    | inr waiting ↦ rw waiting (λ c. refl)
  ]

  finishes : (words : List Text) (s : State Options) → HasFiles s → HasFiles (finish p words s)
  unfolding finish
  finishes words s here = elim (Bool-cases s.consumed) [
    | inl done ↦ rw done (λ c. here done)
    | inr waiting ↦ rw waiting (elim (Bool-cases (is_empty (remove_dashes words))) [
      | inl none_left ↦ rw none_left (λ c. absurd (cc))
      | inr left ↦ rw left (λ c. left)
    ])
  ]

  ends :
      (words : List Text) (s : State Options)
      → HasFiles s
      → ParsedHolds IsRunnable (complete p (finish p words s))
  ends words s here = complete-Holds p IsRunnable (finish p words s) (finishes words s here)

  -- Whatever the command line, where the parser accepts it there is a file.
  pub format_args-IsRunnable :
      (argv : List Text) (o : Options)
      → format_args int_of is_negative_number argv ≡ parsed o
      → is_empty o.files ≡ false
  unfolding format_args
  format_args-IsRunnable argv o accepted = subst (ParsedHolds IsRunnable) accepted (
      parse_args-Holds p HasFiles IsRunnable every_option flushes (λ words s here. here) ends
        defaults argv (λ c. absurd (cc)))
