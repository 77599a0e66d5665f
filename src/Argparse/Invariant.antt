-- ===== src/Argparse/Invariant.antt =====
-- What every action of a parser keeps holds of the state at the end, whatever the command line.
use for_montee.Base.{
  true, false, List, [], ◌∷◌, ◌++◌, Option, none, some, Text, All, Bool-cases, inl, inr,
}
use for_montee.Argparse.{
  Spec, Parser, Parsed, parsed, system_exit, untyped, dashes, Token, positional, separator,
  optional, unknown, classify,
}
use for_montee.Argparse.Parse.{
  State, Next, go_on, stop, Chain, chain, ignored, takes_nothing, needs_one, chain_of, take_action,
  take_flags, and_then, flush, finish, complete, take_word, loop, run, start, parse_args,
}
use for_montee.Argparse.Declared.Arguments.{classify-Holds}
use for_montee.Argparse.Declared.{Maybe, TokenHolds, ChainHolds, chain_of-Holds}

abbrev pub ParsedHolds : {N : Type 0} → (N → Type 0) → Parsed N → Type 0
ParsedHolds Q (parsed n) = Q n
ParsedHolds Q (system_exit status) = Unit
ParsedHolds Q untyped = Unit

-- The invariant goes on, or what the program ends with has the property.
abbrev pub NextHolds : {N : Type 0} → (State N → Type 0) → (N → Type 0) → Next N → Type 0
NextHolds I Q (go_on t) = I t
NextHolds I Q (stop r) = ParsedHolds Q r

module _ {N : Type 0} (p : Parser N) (I : State N → Type 0) (Q : N → Type 0) where
  -- An option whose action keeps the invariant.
  abbrev pub IsKeeping : Spec N → Type 0
  IsKeeping spec =
      (args : List Text) (s : State N) → I s → NextHolds I Q (take_action p.specs spec args s)

  module _ (every : All IsKeeping p.specs)
      (flushes : (words : List Text) (s : State N) → I s → I (flush p words s))
      (extras : (words : List Text) (s : State N) → I s → I (record s { extras = words }))
      (ends : (words : List Text) (s : State N)
        → I s
        → ParsedHolds Q (complete p (finish p words s))) where
    and_then-Holds :
        (n : Next N) (f : State N → Next N)
        → NextHolds I Q n
        → ((s : State N) → I s → NextHolds I Q (f s))
        → NextHolds I Q (and_then n f)
    and_then-Holds (go_on s) f here next = next s here
    and_then-Holds (stop r) f here next = here

    take_flags-Holds :
        (flags : List (Spec N)) (s : State N)
        → All IsKeeping flags
        → I s
        → NextHolds I Q (take_flags p.specs flags s)
    unfolding take_flags
    take_flags-Holds [] s keeping here = here
    take_flags-Holds (flag ∷ flags) s keeping here =
        and_then-Holds (take_action p.specs flag [] s) (take_flags p.specs flags)
          (keeping.0 [] s here) (λ t there. take_flags-Holds flags t keeping.1 there)

    take_word-Holds :
        (flags : List (Spec N)) (spec : Spec N) (args : List Text) (s : State N)
        → All IsKeeping flags
        → IsKeeping spec
        → I s
        → NextHolds I Q (take_word p flags spec args s)
    unfolding take_word
    take_word-Holds flags spec args s before keeping here =
        and_then-Holds (take_flags p.specs flags s) (take_action p.specs spec args)
          (take_flags-Holds flags s before here) (keeping args)

    abbrev continue : Next N → (State N → Parsed N) → Parsed N
    continue n f = elim n [ go_on t ↦ f t | stop r ↦ r ]

    continue-Holds :
        (n : Next N) (f : State N → Parsed N)
        → NextHolds I Q n
        → ((t : State N) → I t → ParsedHolds Q (f t))
        → ParsedHolds Q (continue n f)
    continue-Holds (go_on t) f here next = next t here
    continue-Holds (stop r) f here next = here

    -- One option of the loop, with nothing but its own value behind it.
    last_option-Holds :
        (c : Chain N) (s : State N) (words : List Text) (f : State N → Parsed N)
        → ChainHolds IsKeeping c
        → I s
        → ((t : State N) → I t → ParsedHolds Q (f t))
        → ParsedHolds Q (elim c [
          | ignored ↦ system_exit 2
          | chain flags last (some value) ↦
              continue (take_word p flags last (value ∷ []) (flush p words s)) f
          | chain flags last none ↦ elim (needs_one last.nargs) [
            | true ↦ system_exit 2
            | false ↦ continue (take_word p flags last [] (flush p words s)) f
          ]
        ])
    last_option-Holds ignored s words f keeping here next = tt
    last_option-Holds (chain flags last (some value)) s words f keeping here next =
        continue-Holds (take_word p flags last (value ∷ []) (flush p words s)) f
          (take_word-Holds flags last (value ∷ []) (flush p words s) keeping.0 keeping.1
            (flushes words s here))
          next
    last_option-Holds (chain flags last none) s words f keeping here next =
        elim (Bool-cases (needs_one last.nargs)) [
          | inl needs ↦ rw needs tt
          | inr enough ↦ rw enough (
              continue-Holds (take_word p flags last [] (flush p words s)) f
                (take_word-Holds flags last [] (flush p words s) keeping.0 keeping.1
                  (flushes words s here))
                next)
        ]

    option-Holds :
        (c : Chain N) (s : State N) (words : List Text) (arg : Text)
        (f : List Text → State N → Parsed N)
        → ChainHolds IsKeeping c
        → I s
        → ((left : List Text) (t : State N) → I t → ParsedHolds Q (f left t))
        → ParsedHolds Q (elim c [
          | ignored ↦ system_exit 2
          | chain flags last (some value) ↦
              continue (take_word p flags last (value ∷ []) (flush p words s)) (f (arg ∷ []))
          | chain flags last none ↦ elim (takes_nothing last.nargs) [
            | true ↦ continue (take_word p flags last [] (flush p words s)) (f (arg ∷ []))
            | false ↦ continue (take_word p flags last (arg ∷ []) (flush p words s)) (f [])
          ]
        ])
    option-Holds ignored s words arg f keeping here next = tt
    option-Holds (chain flags last (some value)) s words arg f keeping here next =
        continue-Holds (take_word p flags last (value ∷ []) (flush p words s)) (f (arg ∷ []))
          (take_word-Holds flags last (value ∷ []) (flush p words s) keeping.0 keeping.1
            (flushes words s here))
          (next (arg ∷ []))
    option-Holds (chain flags last none) s words arg f keeping here next =
        elim (Bool-cases (takes_nothing last.nargs)) [
          | inl nothing_more ↦ rw nothing_more (
              continue-Holds (take_word p flags last [] (flush p words s)) (f (arg ∷ []))
                (take_word-Holds flags last [] (flush p words s) keeping.0 keeping.1
                  (flushes words s here))
                (next (arg ∷ [])))
          | inr wants ↦ rw wants (
              continue-Holds (take_word p flags last (arg ∷ []) (flush p words s)) (f [])
                (take_word-Holds flags last (arg ∷ []) (flush p words s) keeping.0 keeping.1
                  (flushes words s here))
                (next []))
        ]

    loop-Holds :
        (s : State N) (words : List Text) (ts : List (Token N))
        → I s
        → All (TokenHolds IsKeeping) ts
        → ParsedHolds Q (loop p s words ts)
    unfolding loop
    loop-Holds s words [] here holds = ends words s here
    loop-Holds s words (positional arg ∷ ts) here holds =
        loop-Holds s (words ++ (arg ∷ [])) ts here holds.1
    loop-Holds s words (separator ∷ ts) here holds =
        loop-Holds s (words ++ (dashes ∷ [])) ts here holds.1
    loop-Holds s words (unknown arg ∷ ts) here holds =
        loop-Holds (record (flush p words s) { extras = (flush p words s).extras ++ (arg ∷ []) }) []
          ts
          (extras ((flush p words s).extras ++ (arg ∷ [])) (flush p words s) (flushes words s here))
          holds.1
    loop-Holds s words (optional spec string explicit ∷ positional arg ∷ ts) here holds =
        option-Holds (chain_of p.specs spec string explicit) s words arg
          (λ left t. loop p t left ts)
          (chain_of-Holds IsKeeping p.specs spec string explicit every holds.0) here
          (λ left t there. loop-Holds t left ts there holds.1.1)
    loop-Holds s words (optional spec string explicit ∷ ts) here holds =
        last_option-Holds (chain_of p.specs spec string explicit) s words (λ t. loop p t [] ts)
          (chain_of-Holds IsKeeping p.specs spec string explicit every holds.0) here
          (λ t there. loop-Holds t [] ts there holds.1)

    run-Holds : (s : State N) (args : List Text) → I s → ParsedHolds Q (run p s args)
    unfolding run
    run-Holds s args here = by_tokens (classify p args) (classify-Holds IsKeeping p every args)
      where
        by_tokens :
            (o : Option (List (Token N)))
            → Maybe (All (TokenHolds IsKeeping)) o
            → ParsedHolds Q (elim o [ none ↦ system_exit 2 | some ts ↦ loop p s [] ts ])
        by_tokens none holds = tt
        by_tokens (some ts) holds = loop-Holds s [] ts here holds

    -- What holds at the start and is kept holds of what the parser gives.
    pub parse_args-Holds :
        (defaults : N) (args : List Text)
        → I (start p defaults)
        → ParsedHolds Q (parse_args p defaults args)
    unfolding parse_args
    parse_args-Holds defaults args here = run-Holds (start p defaults) args here
