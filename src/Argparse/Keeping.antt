-- ===== src/Argparse/Keeping.antt =====
-- The actions of `argparse` that keep an invariant: those that keep it when they set their field.
use for_montee.Base.{
  ◌≡◌, true, false, not, ◌||◌, is_empty, List, [], ◌∷◌, ◌++◌, Option, none, some, Text, Bool-cases,
  inl, inr,
}
use for_montee.Argparse.{Spec, Parser, Taken, took, refused, helped, listed}
use for_montee.Argparse.Actions.{converted, store, store_or_const, flag_of, help_option}
use for_montee.Argparse.Parse.{
  State, take_action, after_action, conflicts, remove_dashes, name_of, complete, lacks,
}
use for_montee.Argparse.Invariant.{NextHolds, ParsedHolds, IsKeeping}

-- What holds of the namespace when the positional argument has been consumed holds of what is
-- accepted.
pub complete-Holds :
    {N : Type 0} (p : Parser N) (Q : N → Type 0) (s : State N)
    → (s.consumed ≡ true → Q s.namespace)
    → ParsedHolds Q (complete p s)
unfolding complete
complete-Holds p Q s holds = elim (Bool-cases s.consumed) [
  | inr missing ↦ rw missing tt
  | inl done ↦ rw done (elim (Bool-cases (lacks p p.specs s.seen || not (is_empty s.extras))) [
    | inl missing ↦ rw missing tt
    | inr accepted ↦ rw accepted (holds done)
  ])
]

module _ {N : Type 0} (p : Parser N) (I : State N → Type 0) (Q : N → Type 0) where
  -- The state when an action of an option is done.
  abbrev pub done : Spec N → N → State N → State N
  done spec n s = record s { namespace = n; seen = s.seen ++ (name_of spec ∷ []) }

  abbrev pub TakenHolds : Spec N → State N → Taken N → Type 0
  TakenHolds spec s (took n) = I (done spec n s)
  TakenHolds spec s refused = Unit
  TakenHolds spec s helped = Unit
  TakenHolds spec s listed = Unit

  after_action-Holds :
      (spec : Spec N) (s : State N) (t : Taken N)
      → TakenHolds spec s t
      → NextHolds I Q (after_action s (name_of spec) t)
  after_action-Holds spec s (took n) holds = holds
  after_action-Holds spec s refused holds = tt
  after_action-Holds spec s helped holds = tt
  after_action-Holds spec s listed holds = tt

  -- Where no other option of the group has been taken, an action is run on the values.
  pub keeping :
      (spec : Spec N)
      → ((args : List Text) (s : State N)
          → I s
          → conflicts p.specs spec s.seen ≡ false
          → TakenHolds spec s (spec.action args s.namespace))
      → IsKeeping p I Q spec
  unfolding take_action
  keeping spec holds args s here = elim (Bool-cases (conflicts p.specs spec s.seen)) [
    | inl taken ↦ rw (take_action, taken) tt
    | inr free ↦
        rw (take_action, free)
          (after_action-Holds spec s (spec.action (remove_dashes args) s.namespace)
            (holds (remove_dashes args) s here free))
  ]

  store-Holds :
      (spec : Spec N) (s : State N) {V : Type 0} (convert : Text → Option V) (set : V → N → N)
      (args : List Text)
      → ((v : V) → I (done spec (set v s.namespace) s))
      → TakenHolds spec s (store convert set args s.namespace)
  store-Holds spec s convert set [] holds = tt
  store-Holds spec s convert set (arg ∷ []) holds = by_value (convert arg)
    where
      by_value : (o : Option _) → TakenHolds spec s (converted o (λ v. set v s.namespace))
      by_value none = tt
      by_value (some v) = holds v
  store-Holds spec s convert set (arg ∷ other ∷ args) holds = tt

  pub store-Keeps :
      (spec : Spec N) {V : Type 0} (convert : Text → Option V) (set : V → N → N)
      → spec.action ≡ store convert set
      → ((v : V) (s : State N)
          → I s
          → conflicts p.specs spec s.seen ≡ false
          → I (done spec (set v s.namespace) s))
      → IsKeeping p I Q spec
  store-Keeps spec convert set e holds =
      keeping spec
        (λ args s here free. rw e (store-Holds spec s convert set args (λ v. holds v s here free)))

  pub store_or_const-Keeps :
      (spec : Spec N) {V : Type 0} (convert : Text → Option V) (const : V) (set : V → N → N)
      → spec.action ≡ store_or_const convert const set
      → ((v : V) (s : State N)
          → I s
          → conflicts p.specs spec s.seen ≡ false
          → I (done spec (set v s.namespace) s))
      → IsKeeping p I Q spec
  store_or_const-Keeps spec convert const set e holds =
      keeping spec (λ args s here free. rw e (by_args args s here free))
    where
      by_args :
          (args : List Text) (s : State N)
          → I s
          → conflicts p.specs spec s.seen ≡ false
          → TakenHolds spec s (store_or_const convert const set args s.namespace)
      by_args [] s here free = holds const s here free
      by_args (arg ∷ args) s here free =
          store-Holds spec s convert set (arg ∷ args) (λ v. holds v s here free)

  pub flag_of-Keeps :
      (strings : List Text) (set : N → N)
      → ((s : State N) → I s → I (done (flag_of strings set) (set s.namespace) s))
      → IsKeeping p I Q (flag_of strings set)
  flag_of-Keeps strings set holds = keeping (flag_of strings set) (λ args s here free. holds s here)

  pub help_option-Keeps : IsKeeping p I Q help_option
  help_option-Keeps = keeping help_option (λ args s here free. tt)
