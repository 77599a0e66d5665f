-- ===== src/Argparse/Parse.antt =====
-- `parse_args` of Python's `argparse`: the loop that goes through the arguments, and the checks at
-- the end.
use for_montee.Base.{
  ◌==◌, Bool, true, false, not, ◌&&◌, ◌||◌, List, [], ◌∷◌, ◌++◌, Option, none, some, Text, text_eq,
  contains, is_empty, if◌then◌else◌,
}
use for_montee.Argparse.{
  Nargs, nothing, one, at_most_one, Taken, took, refused, helped, listed, Spec, Parser, Parsed,
  parsed, system_exit, untyped, dashes, Token, positional, separator, optional, unknown,
  find_option, classify,
}

-- The variables of `_parse_known_args`; `seen` has the first option strings of the actions taken,
-- and `consumed` tells if the positional argument has been.
pub record State (N : Type 0) : Type 0 where
  pub namespace : N
  pub seen : List Text
  pub extras : List Text
  pub consumed : Bool

-- What comes next, or the end of the program.
pub data Next (N : Type 0) : Type 0 where
  go_on : State N → Next N
  stop : Parsed N → Next N

-- What an option string with what is written behind it comes to: flags in one word, and the last
-- option of the word; or an `ArgumentError`.
pub data Chain (N : Type 0) : Type 0 where
  chain : List (Spec N) → Spec N → Option Text → Chain N
  ignored : Chain N

-- `arg_strings.remove('--')`
unfoldable pub remove_dashes : List Text → List Text
unfolding text_eq
remove_dashes [] = []
remove_dashes (arg ∷ args) =
    let rest = remove_dashes args in if text_eq arg dashes then args else arg ∷ rest

abbrev pub takes_nothing : Nargs → Bool
takes_nothing nothing = true
takes_nothing one = false
takes_nothing at_most_one = false

abbrev pub needs_one : Nargs → Bool
needs_one nothing = false
needs_one one = true
needs_one at_most_one = false

-- `option_string[1] not in chars`
abbrev pub is_short : Text → Bool
is_short [] = true
is_short (c ∷ []) = true
is_short (c ∷ d ∷ s) = not (d == b'-')

abbrev pub name_of : {N : Type 0} → Spec N → Text
name_of spec = elim spec.option_strings [ [] ↦ [] | name ∷ names ↦ name ]

module _ {N : Type 0} where
  -- The text behind a flag is the letters of more options.
  unfoldable pub chain_from : List (Spec N) → List (Spec N) → Spec N → Text → Text → Chain N
  unfolding find_option
  chain_from specs flags spec string [] =
      if takes_nothing spec.nargs then ignored else chain flags spec (some [])
  chain_from specs flags spec string (c ∷ s) =
      let rest =
        λ (next : Spec N). chain_from specs (flags ++ (spec ∷ [])) next (b'-' ∷ c ∷ []) s in
      if not (takes_nothing spec.nargs)
      then chain flags spec (some (c ∷ s))
      else if not (is_short string)
      then ignored
      else elim (find_option specs (b'-' ∷ c ∷ [])) [
        | none ↦ ignored
        | some next ↦ if is_empty s then chain (flags ++ (spec ∷ [])) next none else rest next
      ]

  unfoldable pub chain_of : List (Spec N) → Spec N → Text → Option Text → Chain N
  unfolding chain_from
  chain_of specs spec string none = chain [] spec none
  chain_of specs spec string (some explicit) = chain_from specs [] spec string explicit

  -- Another option of the group has been taken.
  unfoldable pub conflicts : List (Spec N) → Spec N → List Text → Bool
  unfolding text_eq contains
  conflicts [] spec seen = false
  conflicts (other ∷ specs) spec seen =
      (spec.exclusive
        && other.exclusive
        && not (text_eq (name_of other) (name_of spec))
        && contains seen (name_of other))
      || conflicts specs spec seen

  abbrev pub after_action : State N → Text → Taken N → Next N
  after_action s name (took n) = go_on (record s { namespace = n; seen = s.seen ++ (name ∷ []) })
  after_action s name refused = stop (system_exit 2)
  after_action s name helped = stop (system_exit 0)
  after_action s name listed = stop untyped

  -- `take_action` of an option
  unfoldable pub take_action : List (Spec N) → Spec N → List Text → State N → Next N
  unfolding remove_dashes conflicts
  take_action specs spec args s =
      let next = after_action s (name_of spec) (spec.action (remove_dashes args) s.namespace) in
      if conflicts specs spec s.seen then stop (system_exit 2) else next

  abbrev pub and_then : Next N → (State N → Next N) → Next N
  and_then (go_on s) f = f s
  and_then (stop r) f = stop r

  unfoldable pub take_flags : List (Spec N) → List (Spec N) → State N → Next N
  unfolding take_action
  take_flags specs [] s = go_on s
  take_flags specs (flag ∷ flags) s =
      and_then (take_action specs flag [] s) (take_flags specs flags)

  module _ (p : Parser N) where
    -- The words before an option are the positional argument, or they are too many.
    unfoldable pub flush : List Text → State N → State N
    flush [] s = s
    flush (word ∷ words) s =
        if s.consumed
        then record s { extras = s.extras ++ (word ∷ words) }
        else record s { namespace = p.store_positional (word ∷ words) s.namespace; consumed = true }

    -- The words behind the last option.
    unfoldable pub finish : List Text → State N → State N
    unfolding remove_dashes
    finish words s =
        if s.consumed || (p.at_least_one && is_empty (remove_dashes words))
        then record s { extras = s.extras ++ words }
        else record s {
          namespace = p.store_positional (remove_dashes words) s.namespace;
          consumed = true;
        }

    -- A required option has not been taken.
    unfoldable pub lacks : List (Spec N) → List Text → Bool
    unfolding contains
    lacks [] seen = false
    lacks (spec ∷ specs) seen =
        (spec.required && not (contains seen (name_of spec))) || lacks specs seen

    unfoldable pub complete : State N → Parsed N
    unfolding lacks
    complete s =
        if not s.consumed || lacks p.specs s.seen || not (is_empty s.extras)
        then system_exit 2
        else parsed s.namespace

    -- The flags of one word, and its last option with its arguments.
    unfoldable pub take_word : List (Spec N) → Spec N → List Text → State N → Next N
    unfolding take_flags take_action
    take_word flags spec args s =
        and_then (take_flags p.specs flags s) (take_action p.specs spec args)

    -- The main loop; `words` are the words since the last option.
    unfoldable pub loop : State N → List Text → List (Token N) → Parsed N
    unfolding chain_of take_word flush finish complete
    loop s words [] = complete (finish words s)
    loop s words (positional arg ∷ ts) = loop s (words ++ (arg ∷ [])) ts
    loop s words (separator ∷ ts) = loop s (words ++ (dashes ∷ [])) ts
    loop s words (unknown arg ∷ ts) =
        let t = flush words s in loop (record t { extras = t.extras ++ (arg ∷ []) }) [] ts
    loop s words (optional spec string explicit ∷ positional arg ∷ ts) =
        elim (chain_of p.specs spec string explicit) [
          | ignored ↦ system_exit 2
          | chain flags last (some value) ↦
              elim (take_word flags last (value ∷ []) (flush words s)) [
                | go_on t ↦ loop t (arg ∷ []) ts
                | stop r ↦ r
              ]
          | chain flags last none ↦ elim (takes_nothing last.nargs) [
            | true ↦ elim (take_word flags last [] (flush words s)) [
              | go_on t ↦ loop t (arg ∷ []) ts
              | stop r ↦ r
            ]
            | false ↦ elim (take_word flags last (arg ∷ []) (flush words s)) [
              | go_on t ↦ loop t [] ts
              | stop r ↦ r
            ]
          ]
        ]
    loop s words (optional spec string explicit ∷ ts) =
        elim (chain_of p.specs spec string explicit) [
          | ignored ↦ system_exit 2
          | chain flags last (some value) ↦
              elim (take_word flags last (value ∷ []) (flush words s)) [
                | go_on t ↦ loop t [] ts
                | stop r ↦ r
              ]
          | chain flags last none ↦ elim (needs_one last.nargs) [
            | true ↦ system_exit 2
            | false ↦ elim (take_word flags last [] (flush words s)) [
              | go_on t ↦ loop t [] ts
              | stop r ↦ r
            ]
          ]
        ]

    -- Going through arguments from a state on; an ambiguous abbreviation ends the program.
    unfoldable pub run : State N → List Text → Parsed N
    unfolding loop classify
    run s args = elim (classify p args) [ none ↦ system_exit 2 | some ts ↦ loop s [] ts ]

    abbrev pub start : N → State N
    start defaults = record { namespace = defaults; seen = []; extras = []; consumed = false }

    unfoldable pub parse_args : N → List Text → Parsed N
    unfolding run
    parse_args defaults args = run (start defaults) args
