-- ===== src/ClangTidy/Options/Exclusive/Group.antt =====
-- The group of `-config` and `-config-file` of tools/run-clang-tidy.py, when an option is met.
use for_montee.Base.{
  ◌≡◌, refl, ap, Bool, true, false, ◌&&◌, ◌||◌, List, [], ◌∷◌, ◌++◌, Text, codes, text_eq, contains,
  is_empty,
}
use for_montee.Argparse.Parse.{State}
use for_montee.Argparse.Words.{contains-end}
use for_montee.ClangTidy.Host.{Options}

-- A text is there only where its option has been met, and not both options have been.
abbrev pub ExclusiveOf : (config config_file : Text) → List Text → Type 0
ExclusiveOf config config_file seen =
    (is_empty config || contains seen (codes "-config") ≡ true)
    × (is_empty config_file || contains seen (codes "-config-file") ≡ true)
    × (contains seen (codes "-config") && contains seen (codes "-config-file") ≡ false)

abbrev pub Exclusive : State Options → Type 0
Exclusive s = ExclusiveOf s.namespace.tidy.config s.namespace.tidy.config_file s.seen

contains-other :
    (xs : List Text) (x name : Text)
    → text_eq x name ≡ false
    → contains (xs ++ (name ∷ [])) x ≡ contains xs x
unfolding contains
contains-other [] x name differ = rw differ refl
contains-other (y ∷ xs) x name differ = ap (λ b. text_eq x y || b) (contains-other xs x name differ)

-- Another option leaves the invariant as it is.
pub others :
    (config config_file : Text) (seen : List Text) (name : Text)
    → text_eq (codes "-config") name ≡ false
    → text_eq (codes "-config-file") name ≡ false
    → ExclusiveOf config config_file seen
    → ExclusiveOf config config_file (seen ++ (name ∷ []))
others config config_file seen name differ differ' here =
    rw
      (
        contains-other seen (codes "-config") name differ,
        contains-other seen (codes "-config-file") name differ',
      )
      here

pub or_false : (a b : Bool) → a || b ≡ false → a ≡ false
or_false false b h = refl
or_false true b h = h

or_true : (a : Bool) → a || true ≡ true
or_true true = refl
or_true false = refl

and_false : (a : Bool) → a && false ≡ false
and_false true = refl
and_false false = refl

pub with_config :
    (config config_file : Text) (seen : List Text)
    → contains seen (codes "-config-file") ≡ false
    → is_empty config_file || contains seen (codes "-config-file") ≡ true
    → ExclusiveOf config config_file (seen ++ (codes "-config" ∷ []))
unfolding text_eq
with_config config config_file seen free here =
    let other = contains-other seen (codes "-config-file") (codes "-config") refl in
    (
      rw (contains-end seen (codes "-config")) (or_true (is_empty config)),
      rw other here,
      rw (other, free) (and_false (contains (seen ++ (codes "-config" ∷ [])) (codes "-config"))),
    )

pub with_config_file :
    (config config_file : Text) (seen : List Text)
    → contains seen (codes "-config") ≡ false
    → is_empty config || contains seen (codes "-config") ≡ true
    → ExclusiveOf config config_file (seen ++ (codes "-config-file" ∷ []))
unfolding text_eq
with_config_file config config_file seen free here =
    let other = contains-other seen (codes "-config") (codes "-config-file") refl in
    (
      rw other here,
      rw (contains-end seen (codes "-config-file")) (or_true (is_empty config_file)),
      rw (other, free) refl,
    )
