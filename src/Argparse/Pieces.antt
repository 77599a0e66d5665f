-- ===== src/Argparse/Pieces.antt =====
-- A command line in pieces: what a piece does to the state, whatever stands behind it.
use for_montee.Base.{
  ◌≡◌, refl, ap, ◌∙◌, append_assoc, true, false, List, [], ◌∷◌, ◌++◌, Option, none, some, Text,
  text_eq,
}
use for_montee.Argparse.{
  Spec, Parser, Parsed, system_exit, dashes, Token, positional, separator, optional, unknown,
  parse_optional, classify,
}
use for_montee.Argparse.Parse.{
  State, go_on, chain, takes_nothing, needs_one, chain_from, take_action, take_word, take_flags,
  flush, loop, run,
}

module _ {N : Type 0} (p : Parser N) where
  abbrev pub Goes : List Text → State N → State N → Type 0
  Goes piece s t = (rest : List Text) → run p s (piece ++ rest) ≡ run p t rest

  pub Goes-nil : (s : State N) → Goes [] s s
  Goes-nil s rest = refl

  pub Goes-append :
      (a b : List Text) (s t u : State N) → Goes a s t → Goes b t u → Goes (a ++ b) s u
  Goes-append a b s t u first second rest =
      ap (run p s) (append_assoc a b rest) ∙ first (b ++ rest) ∙ second rest

  abbrev loop_or_exit : State N → Option (List (Token N)) → Parsed N
  loop_or_exit s none = system_exit 2
  loop_or_exit s (some ts) = loop p s [] ts

  classify-cons :
      (arg : Text) (token : Token N) (args : List Text)
      → text_eq arg dashes ≡ false
      → parse_optional p arg ≡ some token
      → (classify p args ≡ none → classify p (arg ∷ args) ≡ none)
        × ((ts : List (Token N))
            → classify p args ≡ some ts
            → classify p (arg ∷ args) ≡ some (token ∷ ts))
  unfolding classify
  classify-cons arg token args plain e =
      (λ none_left. rw (plain, e, none_left) refl, λ ts left. rw (plain, e, left) refl)

  pub token-Goes :
      (arg : Text) (token : Token N) (s t : State N)
      → text_eq arg dashes ≡ false
      → parse_optional p arg ≡ some token
      → ((ts : List (Token N)) → loop p s [] (token ∷ ts) ≡ loop p t [] ts)
      → Goes (arg ∷ []) s t
  unfolding run
  token-Goes arg token s t plain e goes rest = by_rest (classify p rest) refl
    where
      by_rest :
          (o : Option (List (Token N))) → classify p rest ≡ o → run p s (arg ∷ rest) ≡ run p t rest
      by_rest none left = rw (run, (classify-cons arg token rest plain e).0 left, left) refl
      by_rest (some ts) left =
          rw (run, (classify-cons arg token rest plain e).1 ts left, left) (goes ts)

  -- The last option of a word, where no flags stand before it in the word.
  take_word-alone :
      (spec : Spec N) (args : List Text) (s : State N)
      → take_word p [] spec args (flush p [] s) ≡ take_action p.specs spec args s
  unfolding take_word take_flags flush
  take_word-alone spec args s = refl

  -- An option with what is written behind its `=`.
  module _ (spec : Spec N) (string value : Text) (s t : State N)
      (wants : takes_nothing spec.nargs ≡ false)
      (taken : take_action p.specs spec (value ∷ []) s ≡ go_on t) where
    chain_from-explicit : chain_from p.specs [] spec string value ≡ chain [] spec (some value)
    unfolding chain_from
    chain_from-explicit = by_value value
      where
        by_value : (v : Text) → chain_from p.specs [] spec string v ≡ chain [] spec (some v)
        by_value [] = rw (chain_from, wants) refl
        by_value (c ∷ v) = rw (chain_from, wants) refl

    alone : take_word p [] spec (value ∷ []) (flush p [] s) ≡ go_on t
    alone = take_word-alone spec (value ∷ []) s ∙ taken

    pub loop-explicit :
        (ts : List (Token N))
        → loop p s [] (optional spec string (some value) ∷ ts) ≡ loop p t [] ts
    unfolding loop
    loop-explicit [] = rw (loop, chain_from-explicit, alone) refl
    loop-explicit (positional arg ∷ ts) = rw (loop, chain_from-explicit, alone) refl
    loop-explicit (separator ∷ ts) = rw (loop, chain_from-explicit, alone) refl
    loop-explicit (optional other string' explicit ∷ ts) =
        rw (loop, chain_from-explicit, alone) refl
    loop-explicit (unknown arg ∷ ts) = rw (loop, chain_from-explicit, alone) refl

  -- An option without argument.
  module _ (spec : Spec N) (string : Text) (s t : State N) (wants : takes_nothing spec.nargs ≡ true)
      (needs : needs_one spec.nargs ≡ false) (taken : take_action p.specs spec [] s ≡ go_on t) where
    alone_flag : take_word p [] spec [] (flush p [] s) ≡ go_on t
    alone_flag = take_word-alone spec [] s ∙ taken

    pub loop-flag :
        (ts : List (Token N)) → loop p s [] (optional spec string none ∷ ts) ≡ loop p t [] ts
    unfolding loop
    loop-flag [] = rw (loop, needs, alone_flag) refl
    loop-flag (positional arg ∷ ts) = rw (loop, wants, alone_flag) refl
    loop-flag (separator ∷ ts) = rw (loop, needs, alone_flag) refl
    loop-flag (optional other string' explicit ∷ ts) = rw (loop, needs, alone_flag) refl
    loop-flag (unknown arg ∷ ts) = rw (loop, needs, alone_flag) refl
