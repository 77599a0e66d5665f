-- ===== src/Argparse/Actions.antt =====
-- The actions of Python's `argparse` that the scripts use, for a namespace that is a record: `set`
-- puts a value in its field.
use for_montee.Base.{false, List, [], ◌∷◌, Option, none, some, Text, codes}
use for_montee.Argparse.{nothing, one, Taken, took, refused, helped, listed, Spec}

module _ {N : Type 0} where
  abbrev pub converted : {V : Type 0} → Option V → (V → N) → Taken N
  converted none set = refused
  converted (some v) set = took (set v)

  -- `action='store'` or `'append'`, where `convert` is the `type` and the test of the `choices`.
  abbrev pub store : {V : Type 0} → (Text → Option V) → (V → N → N) → List Text → N → Taken N
  store convert set [] n = listed
  store convert set (arg ∷ []) n = converted (convert arg) (λ v. set v n)
  store convert set (arg ∷ other ∷ args) n = listed

  -- `nargs='?'` with the value `const`
  abbrev pub store_or_const :
      {V : Type 0} → (Text → Option V) → V → (V → N → N) → List Text → N → Taken N
  store_or_const convert const set [] n = took (set const n)
  store_or_const convert const set (arg ∷ args) n = store convert set (arg ∷ args) n

  abbrev pub store_true : (N → N) → List Text → N → Taken N
  store_true set args n = took (set n)

  -- `add_argument` of an option with one argument
  abbrev pub option_of : {V : Type 0} → List Text → (Text → Option V) → (V → N → N) → Spec N
  option_of strings convert set = record {
    option_strings = strings;
    nargs = one;
    required = false;
    exclusive = false;
    action = store convert set;
  }

  -- `add_argument` with `action='store_true'`
  abbrev pub flag_of : List Text → (N → N) → Spec N
  flag_of strings set = record {
    option_strings = strings;
    nargs = nothing;
    required = false;
    exclusive = false;
    action = store_true set;
  }

  -- The option that every parser has.
  abbrev pub help_option : Spec N
  help_option = record {
    option_strings = codes "-h" ∷ codes "--help" ∷ [];
    nargs = nothing;
    required = false;
    exclusive = false;
    action = λ args n. helped;
  }

-- No `type`.
abbrev pub as_text : Text → Option Text
as_text arg = some arg
