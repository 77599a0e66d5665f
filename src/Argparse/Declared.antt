-- ===== src/Argparse/Declared.antt =====
-- What holds of each option that a parser declares holds of the options that it finds in a command
-- line.
pub mod Arguments
use for_montee.Base.{
  ◌==◌, Bool, true, false, ◌||◌, List, [], ◌∷◌, ◌++◌, map, Option, none, some, Text, text_eq, codes,
  starts_with, contains, is_empty, take, All, All-append, Bool-cases, inl, inr, if◌then◌else◌,
}
use for_montee.Argparse.{
  Spec, Parser, Token, positional, separator, optional, unknown, dashes, at_equals, find_option,
  tuples_of, option_tuples, abbreviated, parse_optional, classify, explicit_or, cons_token,
}
use for_montee.Argparse.Parse.{Chain, chain, ignored, takes_nothing, is_short, chain_from, chain_of}

-- Where there is a value, `P` holds of it.
abbrev pub Maybe : {A : Type 0} → (A → Type 0) → Option A → Type 0
Maybe P none = Unit
Maybe P (some a) = P a

module _ {N : Type 0} (G : Spec N → Type 0) where
  abbrev pub TokenHolds : Token N → Type 0
  TokenHolds (positional arg) = Unit
  TokenHolds separator = Unit
  TokenHolds (optional spec string explicit) = G spec
  TokenHolds (unknown arg) = Unit

  abbrev pub ChainHolds : Chain N → Type 0
  ChainHolds (chain flags last explicit) = All G flags × G last
  ChainHolds ignored = Unit

  pub find_option-Holds :
      (specs : List (Spec N)) (string : Text) → All G specs → Maybe G (find_option specs string)
  unfolding find_option
  find_option-Holds [] string every = tt
  find_option-Holds (spec ∷ specs) string every =
      elim (Bool-cases (contains spec.option_strings string)) [
        | inl found ↦ rw found every.0
        | inr other ↦ rw other (find_option-Holds specs string every.1)
      ]

  optionally :
      (b : Bool) (token : Token N) (tokens : List (Token N))
      → TokenHolds token
      → All TokenHolds tokens
      → All TokenHolds (if b then token ∷ tokens else tokens)
  optionally true token tokens holds every = (holds, every)
  optionally false token tokens holds every = every

  tuples_of-Holds :
      (arg : Text) (spec : Spec N) (strings : List Text)
      → G spec
      → All TokenHolds (tuples_of arg spec strings)
  unfolding tuples_of
  tuples_of-Holds arg spec [] holds = tt
  tuples_of-Holds arg spec (string ∷ strings) holds =
      let rest = tuples_of-Holds arg spec strings holds in
      elim (Bool-cases (starts_with arg dashes)) [
        | inl long ↦ rw long (by_equals (tuples_of arg spec strings) rest (at_equals arg))
        | inr short ↦ rw short (elim (Bool-cases (text_eq string (take 2 arg))) [
          | inl same ↦ rw same (holds, rest)
          | inr differ ↦ rw differ (
              optionally (starts_with string arg) (optional spec string none)
                (tuples_of arg spec strings) holds rest)
        ])
      ]
    where
      by_equals :
          (tokens : List (Token N))
          → All TokenHolds tokens
          → (o : Option (Text × Text))
          → All TokenHolds (elim o [
            | none ↦ if starts_with string arg then optional spec string none ∷ tokens else tokens
            | some (prefix, explicit) ↦
                if starts_with string prefix
                then optional spec string (some explicit) ∷ tokens
                else tokens
          ])
      by_equals tokens rest none =
          optionally (starts_with string arg) (optional spec string none) tokens holds rest
      by_equals tokens rest (some (prefix, explicit)) =
          optionally (starts_with string prefix) (optional spec string (some explicit)) tokens holds
            rest

  pub option_tuples-Holds :
      (specs : List (Spec N)) (arg : Text) → All G specs → All TokenHolds (option_tuples specs arg)
  unfolding option_tuples
  option_tuples-Holds [] arg every = tt
  option_tuples-Holds (spec ∷ specs) arg every =
      All-append TokenHolds (tuples_of arg spec spec.option_strings) (option_tuples specs arg)
        (tuples_of-Holds arg spec spec.option_strings every.0)
        (option_tuples-Holds specs arg every.1)

  chain_from-Holds :
      (specs flags : List (Spec N)) (spec : Spec N) (string explicit : Text)
      → All G specs
      → All G flags
      → G spec
      → ChainHolds (chain_from specs flags spec string explicit)
  unfolding chain_from
  chain_from-Holds specs flags spec string [] every before holds =
      elim (Bool-cases (takes_nothing spec.nargs)) [
        | inl nothing_more ↦ rw nothing_more tt
        | inr wants ↦ rw wants (before, holds)
      ]
  chain_from-Holds specs flags spec string (c ∷ s) every before holds =
      elim (Bool-cases (takes_nothing spec.nargs)) [
        | inr wants ↦ rw wants (before, holds)
        | inl nothing_more ↦ rw nothing_more (elim (Bool-cases (is_short string)) [
          | inr long ↦ rw long tt
          | inl short ↦ rw short (
              by_next
                (λ next found.
                  chain_from-Holds specs (flags ++ (spec ∷ [])) next (b'-' ∷ c ∷ []) s every more
                    found)
                (find_option specs (b'-' ∷ c ∷ [])) (find_option-Holds specs (b'-' ∷ c ∷ []) every))
        ])
      ]
    where
      more : All G (flags ++ (spec ∷ []))
      more = All-append G flags (spec ∷ []) before (holds, tt)

      by_next :
          ((next : Spec N)
            → G next
            → ChainHolds (chain_from specs (flags ++ (spec ∷ [])) next (b'-' ∷ c ∷ []) s))
          → (o : Option (Spec N)) → Maybe G o
          → ChainHolds (elim o [
            | none ↦ ignored
            | some next ↦
                if is_empty s
                then chain (flags ++ (spec ∷ [])) next none
                else chain_from specs (flags ++ (spec ∷ [])) next (b'-' ∷ c ∷ []) s
          ])
      by_next rest none found = tt
      by_next rest (some next) found = elim (Bool-cases (is_empty s)) [
        | inl last ↦ rw last (more, found)
        | inr letters ↦ rw letters (rest next found)
      ]

  pub chain_of-Holds :
      (specs : List (Spec N)) (spec : Spec N) (string : Text) (explicit : Option Text)
      → All G specs
      → G spec
      → ChainHolds (chain_of specs spec string explicit)
  unfolding chain_of
  chain_of-Holds specs spec string none every holds = (tt, holds)
  chain_of-Holds specs spec string (some explicit) every holds =
      chain_from-Holds specs [] spec string explicit every tt holds
