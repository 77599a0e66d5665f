-- ===== src/Argparse.antt =====
-- What the scripts use of Python's `argparse`, as it is in Python 3.10: options, one positional
-- argument that takes a list, required options and a group of options that exclude one another.
pub mod Parse
pub mod Actions
pub mod Pieces
pub mod Written
pub mod Words
pub mod Declared
pub mod Invariant
pub mod Keeping
use for_montee.Base.{
  ◌==◌, Bool, true, false, not, ◌&&◌, ◌||◌, List, [], ◌∷◌, ◌++◌, map, keep, Option, none, some,
  Text, codes, text_eq, contains, starts_with, is_empty, take, drop, ℕ, if◌then◌else◌,
}

-- `nargs` of an option: no argument, one, or `'?'`.
pub data Nargs : Type 0 where
  nothing one at_most_one : Nargs

-- What an action comes to: a new namespace, an `ArgumentError`, the end by `--help`, or a list
-- that is stored in place of a text, which happens for the argument `--`; the model does not go on
-- from it.
pub data Taken (N : Type 0) : Type 0 where
  took : N → Taken N
  refused : Taken N
  helped : Taken N
  listed : Taken N

-- `add_argument` of an option; `exclusive` is set for those of the group.
pub record Spec (N : Type 0) : Type 0 where
  pub option_strings : List Text
  pub nargs : Nargs
  pub required : Bool
  pub exclusive : Bool
  pub action : List Text → N → Taken N

-- The parser: its options, and its positional argument with `nargs='+'` or `'*'`.
-- `is_negative_number` is the regular expression for numbers.
pub record Parser (N : Type 0) : Type 0 where
  pub specs : List (Spec N)
  pub at_least_one : Bool
  pub store_positional : List Text → N → N
  pub is_negative_number : Text → Bool

-- `parse_args`: the namespace, or the end of the program with a status.
pub data Parsed (N : Type 0) : Type 0 where
  parsed : N → Parsed N
  system_exit : ℕ → Parsed N
  untyped : Parsed N

abbrev pub dashes : Text
dashes = codes "--"

-- An argument as `_parse_optional` sees it; an option has its string and what stands behind a `=`.
pub data Token (N : Type 0) : Type 0 where
  positional : Text → Token N
  separator : Token N
  optional : Spec N → Text → Option Text → Token N
  unknown : Text → Token N

-- What stands before the first `=`, and behind it.
unfoldable pub at_equals : Text → Option (Text × Text)
at_equals [] = none
at_equals (c ∷ s) =
    let rest = at_equals s in
    if c == b'='
    then some ([], s)
    else elim rest [ none ↦ none | some (before, after) ↦ some (c ∷ before, after) ]

module _ {N : Type 0} where
  -- `_option_string_actions[string]`
  unfoldable pub find_option : List (Spec N) → Text → Option (Spec N)
  unfolding contains
  find_option [] string = none
  find_option (spec ∷ specs) string =
      let rest = find_option specs string in
      if contains spec.option_strings string then some spec else rest

  -- `_get_option_tuples` for one option string.
  unfoldable pub tuples_of : Text → Spec N → List Text → List (Token N)
  unfolding starts_with at_equals text_eq
  tuples_of arg spec [] = []
  tuples_of arg spec (string ∷ strings) =
      let rest = tuples_of arg spec strings in
      if starts_with arg dashes
      then elim (at_equals arg) [
        | none ↦ if starts_with string arg then optional spec string none ∷ rest else rest
        | some (prefix, explicit) ↦
            if starts_with string prefix then optional spec string (some explicit) ∷ rest else rest
      ]
      else if text_eq string (take 2 arg)
      then optional spec string (some (drop 2 arg)) ∷ rest
      else if starts_with string arg
      then optional spec string none ∷ rest
      else rest

  unfoldable pub option_tuples : List (Spec N) → Text → List (Token N)
  unfolding tuples_of
  option_tuples [] arg = []
  option_tuples (spec ∷ specs) arg =
      tuples_of arg spec spec.option_strings ++ option_tuples specs arg

  module _ (p : Parser N) where
    -- An argument that is no option string: an abbreviation, a number, a word with a blank, or an
    -- option that is not known; none for an ambiguous abbreviation.
    unfoldable pub abbreviated : Text → Option (Token N)
    unfolding option_tuples contains
    abbreviated arg = elim (option_tuples p.specs arg) [
      | [] ↦
          if p.is_negative_number arg || contains (map (λ c. c ∷ []) arg) (codes " ")
          then some (positional arg)
          else some (unknown arg)
      | token ∷ [] ↦ some token
      | token ∷ other ∷ tokens ↦ none
    ]

    abbrev pub explicit_or : Text → Option (Text × Text) → Option (Token N)
    explicit_or arg none = abbreviated arg
    explicit_or arg (some (string, explicit)) = elim (find_option p.specs string) [
      | some spec ↦ some (optional spec string (some explicit))
      | none ↦ abbreviated arg
    ]

    -- `_parse_optional`
    unfoldable pub parse_optional : Text → Option (Token N)
    unfolding find_option at_equals abbreviated
    parse_optional [] = some (positional [])
    parse_optional (c ∷ s) =
        if not (c == b'-') then some (positional (c ∷ s)) else elim (find_option p.specs (c ∷ s)) [
          | some spec ↦ some (optional spec (c ∷ s) none)
          | none ↦
              if is_empty s
              then some (positional (c ∷ s))
              else explicit_or (c ∷ s) (at_equals (c ∷ s))
        ]

    abbrev pub cons_token : Option (Token N) → Option (List (Token N)) → Option (List (Token N))
    cons_token (some token) (some tokens) = some (token ∷ tokens)
    cons_token _ _ = none

    -- All arguments; behind `--` there are no options.
    unfoldable pub classify : List Text → Option (List (Token N))
    unfolding parse_optional text_eq
    classify [] = some []
    classify (arg ∷ args) =
        let rest = cons_token (parse_optional arg) (classify args) in
        if text_eq arg dashes then some (separator ∷ map positional args) else rest
