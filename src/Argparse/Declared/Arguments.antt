-- ===== src/Argparse/Declared/Arguments.antt =====
-- The options that a parser finds in the arguments are among those that it declares.
use for_montee.Base.{
  ◌==◌, ◌||◌, List, [], ◌∷◌, map, Option, none, some, Text, text_eq, codes, contains, is_empty, All,
  Bool-cases, inl, inr, if◌then◌else◌,
}
use for_montee.Argparse.{
  Spec, Parser, Token, positional, optional, unknown, dashes, at_equals, find_option, option_tuples,
  abbreviated, parse_optional, classify, explicit_or, cons_token,
}
use for_montee.Argparse.Declared.{Maybe, TokenHolds, find_option-Holds, option_tuples-Holds}

module _ {N : Type 0} (G : Spec N → Type 0) (p : Parser N) (every : All G p.specs) where
  abbreviated-Holds : (arg : Text) → Maybe (TokenHolds G) (abbreviated p arg)
  unfolding abbreviated
  abbreviated-Holds arg =
      by_tuples (option_tuples p.specs arg) (option_tuples-Holds G p.specs arg every)
    where
      by_tuples :
          (ts : List (Token N))
          → All (TokenHolds G) ts
          → Maybe (TokenHolds G) (elim ts [
            | [] ↦
                if p.is_negative_number arg || contains (map (λ c. c ∷ []) arg) (codes " ")
                then some (positional arg)
                else some (unknown arg)
            | token ∷ [] ↦ some token
            | token ∷ other ∷ tokens ↦ none
          ])
      by_tuples [] holds =
          elim (Bool-cases
            (p.is_negative_number arg || contains (map (λ c. c ∷ []) arg) (codes " "))) [
              | inl b ↦ rw b tt
              | inr b ↦ rw b tt
            ]
      by_tuples (token ∷ []) holds = holds.0
      by_tuples (token ∷ other ∷ tokens) holds = tt

  explicit_or-Holds :
      (arg : Text) (o : Option (Text × Text)) → Maybe (TokenHolds G) (explicit_or p arg o)
  explicit_or-Holds arg none = abbreviated-Holds arg
  explicit_or-Holds arg (some (string, explicit)) =
      by_option (find_option p.specs string) (find_option-Holds G p.specs string every)
    where
      by_option :
          (o : Option (Spec N))
          → Maybe G o
          → Maybe (TokenHolds G) (elim o [
            | some spec ↦ some (optional spec string (some explicit))
            | none ↦ abbreviated p arg
          ])
      by_option none found = abbreviated-Holds arg
      by_option (some spec) found = found

  parse_optional-Holds : (arg : Text) → Maybe (TokenHolds G) (parse_optional p arg)
  unfolding parse_optional
  parse_optional-Holds [] = tt
  parse_optional-Holds (c ∷ s) = elim (Bool-cases (c == b'-')) [
    | inr word ↦ rw word tt
    | inl minus ↦
        rw minus
          (by_option (find_option p.specs (c ∷ s)) (find_option-Holds G p.specs (c ∷ s) every))
  ]
    where
      by_option :
          (o : Option (Spec N))
          → Maybe G o
          → Maybe (TokenHolds G) (elim o [
            | some spec ↦ some (optional spec (c ∷ s) none)
            | none ↦
                if is_empty s
                then some (positional (c ∷ s))
                else explicit_or p (c ∷ s) (at_equals (c ∷ s))
          ])
      by_option (some spec) found = found
      by_option none found = elim (Bool-cases (is_empty s)) [
        | inl b ↦ rw b tt
        | inr b ↦ rw b (explicit_or-Holds (c ∷ s) (at_equals (c ∷ s)))
      ]

  -- The options that are found in a command line.
  pub classify-Holds : (args : List Text) → Maybe (All (TokenHolds G)) (classify p args)
  unfolding classify
  classify-Holds [] = tt
  classify-Holds (arg ∷ args) = elim (Bool-cases (text_eq arg dashes)) [
    | inl mark ↦ rw mark (tt, words args)
    | inr plain ↦ rw plain (
        both (parse_optional p arg) (classify p args) (parse_optional-Holds arg)
          (classify-Holds args))
  ]
    where
      words : (ws : List Text) → All (TokenHolds G) (map positional ws)
      words [] = tt
      words (w ∷ ws) = (tt, words ws)

      both :
          (t : Option (Token N)) (ts : Option (List (Token N)))
          → Maybe (TokenHolds G) t
          → Maybe (All (TokenHolds G)) ts
          → Maybe (All (TokenHolds G)) (cons_token p t ts)
      both none ts first rest = tt
      both (some t) none first rest = tt
      both (some t) (some ts) first rest = (first, rest)
