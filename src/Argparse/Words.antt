-- ===== src/Argparse/Words.antt =====
-- Words on a command line: arguments that do not start with `-`.
use for_montee.Base.{
  ◌==◌, ◌≡◌, refl, ◌∙◌, Bool, true, false, not, ◌&&◌, List, [], ◌∷◌, ◌++◌, map, some, Text, text_eq,
  text_eq_comm, text_eq_refl, contains, Bool-cases, inl, inr,
}
use for_montee.Argparse.{Parser, positional, dashes, parse_optional, classify}
use for_montee.Argparse.Parse.{State, run, complete, finish, remove_dashes}
use for_montee.Argparse.Written.{loop_words}

abbrev pub is_word : Text → Bool
is_word [] = true
is_word (c ∷ s) = not (c == b'-')

abbrev pub all_words : List Text → Bool
all_words [] = true
all_words (arg ∷ args) = is_word arg && all_words args

pub word-dashes : (arg : Text) → is_word arg ≡ true → text_eq arg dashes ≡ false
unfolding text_eq
word-dashes [] h = refl
word-dashes (c ∷ s) h = elim (Bool-cases (c == b'-')) [
  | inl minus ↦ absurd (cc)
  | inr other ↦ rw other refl
]

all_words_cons :
    (arg : Text) (args : List Text)
    → all_words (arg ∷ args) ≡ true
    → (is_word arg ≡ true) × (all_words args ≡ true)
all_words_cons arg args h = elim (Bool-cases (is_word arg)) [
  | inl word ↦ (word, rw word at h)
  | inr other ↦ absurd (cc (rw other at h))
]

pub contains-end : (xs : List Text) (x : Text) → contains (xs ++ (x ∷ [])) x ≡ true
unfolding contains
contains-end [] x = rw (text_eq_refl x) refl
contains-end (y ∷ xs) x = elim (Bool-cases (text_eq x y)) [
  | inl same ↦ rw same refl
  | inr differ ↦ rw (differ, contains-end xs x) refl
]

-- Words hold no `--`.
pub remove_dashes-words : (args : List Text) → all_words args ≡ true → remove_dashes args ≡ args
unfolding remove_dashes
remove_dashes-words [] h = refl
remove_dashes-words (arg ∷ args) h =
    let (word, words) = all_words_cons arg args h in
    rw (word-dashes arg word, remove_dashes-words args words) refl

pub contains-words : (args : List Text) → all_words args ≡ true → contains args dashes ≡ false
unfolding contains
contains-words [] h = refl
contains-words (arg ∷ args) h =
    let (word, words) = all_words_cons arg args h in
    rw (text_eq_comm dashes arg ∙ word-dashes arg word, contains-words args words) refl

module _ {N : Type 0} (p : Parser N) where
  parse_optional-word :
      (arg : Text) → is_word arg ≡ true → parse_optional p arg ≡ some (positional arg)
  unfolding parse_optional
  parse_optional-word [] h = refl
  parse_optional-word (c ∷ s) h = rw h refl

  classify-words :
      (args : List Text) → all_words args ≡ true → classify p args ≡ some (map positional args)
  unfolding classify
  classify-words [] h = refl
  classify-words (arg ∷ args) h =
      let (word, words) = all_words_cons arg args h in
      rw (word-dashes arg word, parse_optional-word arg word, classify-words args words) refl

  -- The words at the end are the positional argument.
  pub run-words :
      (s : State N) (args : List Text)
      → all_words args ≡ true
      → run p s args ≡ complete p (finish p args s)
  unfolding run
  run-words s args h = rw (run, classify-words args h) (loop_words p s [] args)
