-- ===== src/Argparse/Written.antt =====
-- Options written on a command line and read back: each piece of the command line sets one field of
-- the namespace, whatever has been read before.
use for_montee.Base.{
  ◌≡◌, refl, ap, sym, ◌∙◌, append_assoc, append-nil, Bool, true, false, List, [], ◌∷◌, ◌++◌, map,
  none, some, Text, text_eq, contains, is_empty, if◌then◌else◌, subst, Bool-cases, inl, inr,
  text_eq_comm,
}
use for_montee.Argparse.{took, Spec, Parser, dashes, positional, optional, parse_optional, classify}
use for_montee.Argparse.Parse.{
  State, go_on, takes_nothing, needs_one, conflicts, take_action, name_of, loop, run, finish,
  complete, remove_dashes,
}
use for_montee.Argparse.Pieces.{Goes, Goes-nil, Goes-append, token-Goes, loop-explicit, loop-flag}

-- A text that `argparse` stores as it is.
abbrev pub IsProper : Text → Type 0
IsProper v = text_eq v dashes ≡ false

-- A state in which no word has been met.
abbrev pub at : {N : Type 0} → List Text → N → State N
at seen n = record { namespace = n; seen = seen; extras = []; consumed = false }

-- A piece of the command line leads from one namespace to another.
pub record Leads {N : Type 0} (p : Parser N) (piece : List Text) (n m : N) : Type 0 where
  pub leads : (seen : List Text) → (seen' : List Text) × Goes p piece (at seen n) (at seen' m)

-- One piece, then another.
infixl 3 ◌⨟◌
pub ◌⨟◌ :
    {N : Type 0} {p : Parser N} {a b : List Text} {n m o : N}
    → Leads p a n m
    → Leads p b m o
    → Leads p (a ++ b) n o
◌⨟◌ {N} {p} {a} {b} {n} {m} {o} first second = record { leads = both }
  where
    both : (seen : List Text) → (seen'' : List Text) × Goes p (a ++ b) (at seen n) (at seen'' o)
    both seen =
        let (seen', goes) = first.leads seen in
        let (seen'', goes') = second.leads seen' in
        (seen'', Goes-append p a b (at seen n) (at seen' m) (at seen'' o) goes goes')

module _ {N : Type 0} (p : Parser N) where
  pub Leads-nil : (n : N) → Leads p [] n n
  Leads-nil n = record { leads = λ seen. (seen, Goes-nil p (at seen n)) }

  -- An option with its value behind `=`.
  pub explicit-Goes :
      (spec : Spec N) (arg string value : Text) (n m : N) (seen : List Text)
      → parse_optional p arg ≡ some (optional spec string (some value))
      → text_eq arg dashes ≡ false
      → takes_nothing spec.nargs ≡ false
      → conflicts p.specs spec seen ≡ false
      → IsProper value
      → spec.action (value ∷ []) n ≡ took m
      → Goes p (arg ∷ []) (at seen n) (at (seen ++ (name_of spec ∷ [])) m)
  unfolding take_action remove_dashes
  explicit-Goes spec arg string value n m seen e plain wants free proper acts =
      token-Goes p arg (optional spec string (some value)) s t plain e
        (loop-explicit p spec string value s t wants taken)
    where
      s : State N
      s = at seen n

      t : State N
      t = at (seen ++ (name_of spec ∷ [])) m

      taken : take_action p.specs spec (value ∷ []) s ≡ go_on t
      taken = rw (take_action, remove_dashes, free, proper, acts) refl

  pub flag-Goes :
      (spec : Spec N) (arg string : Text) (n m : N) (seen : List Text)
      → parse_optional p arg ≡ some (optional spec string none)
      → text_eq arg dashes ≡ false
      → takes_nothing spec.nargs ≡ true
      → needs_one spec.nargs ≡ false
      → conflicts p.specs spec seen ≡ false
      → spec.action [] n ≡ took m
      → Goes p (arg ∷ []) (at seen n) (at (seen ++ (name_of spec ∷ [])) m)
  unfolding take_action remove_dashes
  flag-Goes spec arg string n m seen e plain wants needs free acts =
      token-Goes p arg (optional spec string none) s t plain e
        (loop-flag p spec string s t wants needs taken)
    where
      s : State N
      s = at seen n

      t : State N
      t = at (seen ++ (name_of spec ∷ [])) m

      taken : take_action p.specs spec [] s ≡ go_on t
      taken = rw (take_action, remove_dashes, free, acts) refl

  pub explicit-Leads :
      (spec : Spec N) (arg string value : Text) (n m : N)
      → parse_optional p arg ≡ some (optional spec string (some value))
      → text_eq arg dashes ≡ false
      → takes_nothing spec.nargs ≡ false
      → ((seen : List Text) → conflicts p.specs spec seen ≡ false)
      → IsProper value
      → spec.action (value ∷ []) n ≡ took m
      → Leads p (arg ∷ []) n m
  explicit-Leads spec arg string value n m e plain wants free proper acts = record {
    leads = λ seen. (
      seen ++ (name_of spec ∷ []),
      explicit-Goes spec arg string value n m seen e plain wants (free seen) proper acts,
    );
  }

  pub flag-Leads :
      (spec : Spec N) (arg string : Text) (n m : N)
      → parse_optional p arg ≡ some (optional spec string none)
      → text_eq arg dashes ≡ false
      → takes_nothing spec.nargs ≡ true
      → needs_one spec.nargs ≡ false
      → ((seen : List Text) → conflicts p.specs spec seen ≡ false)
      → spec.action [] n ≡ took m
      → Leads p (arg ∷ []) n m
  flag-Leads spec arg string n m e plain wants needs free acts = record {
    leads = λ seen. (
      seen ++ (name_of spec ∷ []),
      flag-Goes spec arg string n m seen e plain wants needs (free seen) acts,
    );
  }

  -- The words at the end are the positional argument.
  pub loop_words :
      (s : State N) (words args : List Text)
      → loop p s words (map positional args) ≡ complete p (finish p (words ++ args) s)
  unfolding loop
  loop_words s words [] = ap (λ x. complete p (finish p x s)) (sym (append-nil words))
  loop_words s words (arg ∷ args) =
      loop_words s (words ++ (arg ∷ [])) args
      ∙ ap (λ x. complete p (finish p x s)) (append_assoc words (arg ∷ []) args)

  -- What stands behind `--`.
  pub run-dashes :
      (s : State N) (args : List Text)
      → run p s (dashes ∷ args) ≡ complete p (finish p (dashes ∷ args) s)
  unfolding run classify loop
  run-dashes s args = loop_words s (dashes ∷ []) args

contains_cons :
    (v : Text) (vs : List Text)
    → contains (v ∷ vs) dashes ≡ false
    → (text_eq v dashes ≡ false) × (contains vs dashes ≡ false)
unfolding contains
contains_cons v vs proper = elim (Bool-cases (text_eq dashes v)) [
  | inl mark ↦ let found = rw mark at proper in absurd (cc)
  | inr plain ↦ (text_eq_comm v dashes ∙ plain, rw plain at proper)
]

-- A piece that is written only for some values; `set` is the namespace with the value in its field.
module _ {N : Type 0} {p : Parser N} where
  pub Leads-flag :
      (set : Bool → N) (write : Bool → List Text) (b : Bool)
      → write false ≡ []
      → Leads p (write true) (set false) (set true)
      → Leads p (write b) (set false) (set b)
  Leads-flag set write true blank leads = leads
  Leads-flag set write false blank leads = rw blank (Leads-nil p (set false))

  pub Leads-text :
      (set : Text → N) (flag v : Text)
      → Leads p ((flag ++ v) ∷ []) (set []) (set v)
      → Leads p (if is_empty v then [] else (flag ++ v) ∷ []) (set []) (set v)
  Leads-text set flag [] leads = Leads-nil p (set [])
  Leads-text set flag (c ∷ v) leads = leads

  pub Leads-list :
      (set : List Text → N) (flag : Text) (before vs : List Text)
      → ((done : List Text) (v : Text)
          → text_eq v dashes ≡ false
          → Leads p ((flag ++ v) ∷ []) (set done) (set (done ++ (v ∷ []))))
      → contains vs dashes ≡ false
      → Leads p (map (λ v. flag ++ v) vs) (set before) (set (before ++ vs))
  Leads-list set flag before [] leads proper = rw (append-nil before) (Leads-nil p (set before))
  Leads-list set flag before (v ∷ vs) leads proper =
      let (first, others) = contains_cons v vs proper in
      leads before v first
      ⨟ subst (λ all. Leads p (map (λ v'. flag ++ v') vs) (set (before ++ (v ∷ []))) (set all))
          (append_assoc before (v ∷ []) vs)
          (Leads-list set flag (before ++ (v ∷ [])) vs leads others)
