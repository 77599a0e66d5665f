-- ===== src/ClangTidy/Options/Exclusive.antt =====
-- `-config` and `-config-file` of tools/run-clang-tidy.py exclude each other, whatever the command
-- line.
pub mod Group
use for_montee.Base.{
  ◌≡◌, refl, ap, sym, ℤ, Bool, true, false, ◌&&◌, ◌||◌, List, [], ◌∷◌, ◌++◌, Option, Text, codes,
  text_eq, contains, is_empty, All, All-append, Bool-cases, inl, inr, subst,
}
use for_montee.Argparse.{Parser, parsed, Spec}
use for_montee.Argparse.Actions.{as_text}
use for_montee.Argparse.Parse.{State, flush, finish, conflicts}
use for_montee.Argparse.Words.{contains-end}
use for_montee.Argparse.Invariant.{ParsedHolds, IsKeeping, parse_args-Holds}
use for_montee.Argparse.Keeping.{
  complete-Holds, store-Keeps, store_or_const-Keeps, flag_of-Keeps, help_option-Keeps,
}
use for_montee.ClangTidy.Command.{strtobool}
use for_montee.ClangTidy.Host.{Options}
use for_montee.ClangTidy.Options.{
  parser, defaults, tidy_args, options_before_yaml, yaml_options, options_after_yaml, set_use_color,
}
use for_montee.ClangTidy.Options.Exclusive.Group.{
  Exclusive, ExclusiveOf, others, or_false, with_config, with_config_file,
}

abbrev IsExclusive : Options → Type 0
IsExclusive o = is_empty o.tidy.config || is_empty o.tidy.config_file ≡ true

module _ (has_yaml : Bool) (lower : Text → Text) (int_of : Text → Option ℤ)
    (is_negative_number : Text → Bool) where
  abbrev p : Parser Options
  p = parser has_yaml lower int_of is_negative_number

  abbrev Keeps : List (Spec Options) → Type 0
  Keeps specs = All (IsKeeping p Exclusive IsExclusive) specs

  before_yaml : Keeps (options_before_yaml)
  unfolding text_eq conflicts
  before_yaml = (
    help_option-Keeps p Exclusive IsExclusive,
    (
      flag_of-Keeps p Exclusive IsExclusive _ _ (λ s here.
          others s.namespace.tidy.config s.namespace.tidy.config_file s.seen _ refl refl here),
      (
        store-Keeps p Exclusive IsExclusive _ as_text _ refl (λ v s here free.
            others s.namespace.tidy.config s.namespace.tidy.config_file s.seen _ refl refl here),
        (
          store-Keeps p Exclusive IsExclusive _ as_text _ refl (λ v s here free.
              others s.namespace.tidy.config s.namespace.tidy.config_file s.seen _ refl refl here),
          (
            store-Keeps p Exclusive IsExclusive _ as_text _ refl (λ v s here free.
                others s.namespace.tidy.config s.namespace.tidy.config_file s.seen _ refl refl
                  here),
            (
              store-Keeps p Exclusive IsExclusive _ as_text _ refl (λ v s here free.
                  with_config v s.namespace.tidy.config_file s.seen (or_false _ _ free) here.1),
              (
                store-Keeps p Exclusive IsExclusive _ as_text _ refl (λ v s here free.
                    with_config_file s.namespace.tidy.config v s.seen (or_false _ _ free) here.0),
                (
                  store-Keeps p Exclusive IsExclusive _ as_text _ refl (λ v s here free.
                      others s.namespace.tidy.config s.namespace.tidy.config_file s.seen _ refl refl
                        here),
                  (
                    store-Keeps p Exclusive IsExclusive _ as_text _ refl (λ v s here free.
                        others s.namespace.tidy.config s.namespace.tidy.config_file s.seen _ refl
                          refl here),
                    tt,
                  ),
                ),
              ),
            ),
          ),
        ),
      ),
    ),
  )

  yaml_only : (b : Bool) → Keeps (yaml_options b)
  unfolding text_eq
  yaml_only false = tt
  yaml_only true = (
    store-Keeps p Exclusive IsExclusive _ as_text _ refl (λ v s here free.
        others s.namespace.tidy.config s.namespace.tidy.config_file s.seen _ refl refl here),
    tt,
  )

  after_yaml : Keeps (options_after_yaml lower int_of)
  unfolding text_eq
  after_yaml = (
    store-Keeps p Exclusive IsExclusive _ int_of _ refl (λ v s here free.
        others s.namespace.tidy.config s.namespace.tidy.config_file s.seen _ refl refl here),
    (
      flag_of-Keeps p Exclusive IsExclusive _ _ (λ s here.
          others s.namespace.tidy.config s.namespace.tidy.config_file s.seen _ refl refl here),
      (
        flag_of-Keeps p Exclusive IsExclusive _ _ (λ s here.
            others s.namespace.tidy.config s.namespace.tidy.config_file s.seen _ refl refl here),
        (
          store-Keeps p Exclusive IsExclusive _ as_text _ refl (λ v s here free.
              others s.namespace.tidy.config s.namespace.tidy.config_file s.seen _ refl refl here),
          (
            store_or_const-Keeps p Exclusive IsExclusive _ (strtobool lower) true set_use_color refl
                (λ v s here free.
                  others s.namespace.tidy.config s.namespace.tidy.config_file s.seen _ refl refl
                    here),
            (
              store-Keeps p Exclusive IsExclusive _ as_text _ refl (λ v s here free.
                  others s.namespace.tidy.config s.namespace.tidy.config_file s.seen _ refl refl
                    here),
              (
                store-Keeps p Exclusive IsExclusive _ as_text _ refl (λ v s here free.
                    others s.namespace.tidy.config s.namespace.tidy.config_file s.seen _ refl refl
                      here),
                (
                  store-Keeps p Exclusive IsExclusive _ as_text _ refl (λ v s here free.
                      others s.namespace.tidy.config s.namespace.tidy.config_file s.seen _ refl refl
                        here),
                  (
                    flag_of-Keeps p Exclusive IsExclusive _ _ (λ s here.
                        others s.namespace.tidy.config s.namespace.tidy.config_file s.seen _ refl
                          refl here),
                    (
                      store-Keeps p Exclusive IsExclusive _ as_text _ refl (λ v s here free.
                          others s.namespace.tidy.config s.namespace.tidy.config_file s.seen _ refl
                            refl here),
                      tt,
                    ),
                  ),
                ),
              ),
            ),
          ),
        ),
      ),
    ),
  )

  every_option : Keeps p.specs
  every_option =
      All-append (IsKeeping p Exclusive IsExclusive) (options_before_yaml ++ yaml_options has_yaml)
        (options_after_yaml lower int_of)
        (All-append (IsKeeping p Exclusive IsExclusive) options_before_yaml (yaml_options has_yaml)
          before_yaml (yaml_only has_yaml))
        after_yaml

  flushes : (words : List Text) (s : State Options) → Exclusive s → Exclusive (flush p words s)
  unfolding flush
  flushes [] s here = here
  flushes (word ∷ words) s here = elim (Bool-cases s.consumed) [
    | inl done ↦ rw done here
    | inr waiting ↦ rw waiting here
  ]

  finishes : (words : List Text) (s : State Options) → Exclusive s → Exclusive (finish p words s)
  unfolding finish
  finishes words s here = elim (Bool-cases s.consumed) [
    | inl done ↦ rw done here
    | inr waiting ↦ rw waiting here
  ]

  at_most_one_text : (s : State Options) → Exclusive s → IsExclusive s.namespace
  at_most_one_text s (config, config_file, alone) =
      by_cases (is_empty s.namespace.tidy.config) (is_empty s.namespace.tidy.config_file)
        (contains s.seen (codes "-config")) (contains s.seen (codes "-config-file")) config
        config_file alone
    where
      by_cases : (a b x y : Bool) → a || x ≡ true → b || y ≡ true → x && y ≡ false → a || b ≡ true
      by_cases true b x y h h' alone' = refl
      by_cases false true x y h h' alone' = refl
      by_cases false false true true h h' alone' = sym alone'
      by_cases false false false y h h' alone' = h
      by_cases false false true false h h' alone' = h'

  -- Whatever the command line, where the parser accepts it `-config` or `-config-file` is not
  -- given or is the empty text.
  pub tidy_args-IsExclusive :
      (argv : List Text) (o : Options)
      → tidy_args has_yaml lower int_of is_negative_number argv ≡ parsed o
      → is_empty o.tidy.config || is_empty o.tidy.config_file ≡ true
  unfolding tidy_args contains
  tidy_args-IsExclusive argv o accepted = subst (ParsedHolds IsExclusive) accepted (
      parse_args-Holds p Exclusive IsExclusive every_option flushes (λ words s here. here)
        (λ words s here.
          complete-Holds p IsExclusive (finish p words s)
            (λ done. at_most_one_text (finish p words s) (finishes words s here)))
        defaults argv (refl, refl, refl))
