-- ===== src/IwyuTool/Database/Commands.antt =====
-- The commands that the database gives, and how arguments and paths are prepared.
use for_montee.Base.{
  ◌≡◌, ◌⊎◌, inl, inr, refl, ap, false, List, [], ◌∷◌, ◌++◌, Text, codes, text_eq, text_eq_iff,
  text_eq_comm, contains, Bool-cases,
}
use for_montee.IwyuTool.Database.{Result, ok, err, ◌>>=◌, partition_args}

abbrev pub dashes : Text
dashes = codes "--"

-- The driver's arguments hold no `--`, and the command line is these alone, or these, a `--` and
-- the arguments for include-what-you-use.
pub partition_args-split :
    (argv : List Text)
    → let (driver, extra) = partition_args argv in
      (contains driver dashes ≡ false)
      × ((argv ≡ driver ++ (dashes ∷ extra)) ⊎ ((argv ≡ driver) × (extra ≡ [])))
unfolding partition_args contains
partition_args-split [] = (refl, inr (refl, refl))
partition_args-split (arg ∷ argv) =
    let (clean, split) = partition_args-split argv in
    elim (Bool-cases (text_eq arg dashes)) [
      | inl mark ↦ rw mark (refl, inl (ap (λ a. a ∷ argv) ((text_eq_iff arg dashes).0 mark)))
      | inr plain ↦ rw plain (
        rw (← text_eq_comm arg dashes, plain) clean,
        elim split [
          | inl e ↦ inl (ap (◌∷◌ arg) e)
          | inr (e, none_left) ↦ inr (ap (◌∷◌ arg) e, none_left)
        ],
      )
    ]

pub ok_injective {ℓ} : {A : Type ℓ} {a b : A} → ok a ≡ ok b → a ≡ b
ok_injective e = cc

-- Where a chain gives a value, so does its first step.
pub value_before {ℓ} :
    {A B : Type ℓ} (f : A → Result B) (last : B) (m : Result A)
    → (m >>= f) ≡ ok last
    → (first : A) × (f first ≡ ok last) × (m ≡ ok first)
value_before f last (err failure) stops = cc
value_before f last (ok first) goes_on = (first, goes_on, refl)
