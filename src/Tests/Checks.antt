-- ===== src/Tests/Checks.antt =====
-- Hypotheses on all characters of a concrete text, by evaluation, and numbers on a command line.
use for_montee.Base.{
  ℤ, pos, ◌-◌, Option, none, some, Text, ℕ, ◌≡◌, Bool, true, false, List, [], ◌∷◌, All, Bool-cases,
  inl, inr, if◌then◌else◌,
}

abbrev pub none_of : (ℕ → Bool) → List ℕ → Bool
none_of p [] = true
none_of p (c ∷ s) = let rest = none_of p s in if p c then false else rest

pub none_of-All : (p : ℕ → Bool) (s : List ℕ) → none_of p s ≡ true → All (λ c. p c ≡ false) s
none_of-All p [] e = tt
none_of-All p (c ∷ s) e = elim (Bool-cases (p c)) [
  | inl bad ↦ cc (rw bad at e)
  | inr good ↦ (good, none_of-All p s (rw good at e))
]

-- A number of one digit.
abbrev pub digit : Text → Option ℤ
digit (c ∷ []) = some (pos (c - b'0'))
digit _ = none

-- No argument is a negative number.
abbrev pub never_number : Text → Bool
never_number v = false
