-- ===== src/IwyuTool/Formatter/Headers.antt =====
-- How the headers of a report of include-what-you-use are read.
use mathlib.Core.List.{reverse-append}
use for_montee.Base.{
  ℕ, zero, suc, not, ◌&&◌, All-append, Bool-cases, inl, inr, ◌==◌, ◌≡◌, ◌≢◌, refl, ap, sym, ◌∙◌,
  Bool, true, [], ◌∷◌, ◌++◌, reverse, none, Text, codes, arith,
}
use for_montee.IwyuTool.Regex.{match}
use for_montee.IwyuTool.Regex.Suffix.{NoNewline, match-ends_in, match-ends_in-none}
use for_montee.IwyuTool.Formatter.{correct_re, correct, should_add, should_remove, classify}

abbrev pub correct_end : Text
correct_end = codes " has correct #includes/fwd-decls)"

abbrev pub correct_line : Text → Text
correct_line path = b'(' ∷ (path ++ correct_end)

abbrev pub add_header : Text → Text
add_header path = path ++ codes " should add these lines:"

abbrev pub remove_header : Text → Text
remove_header path = path ++ codes " should remove these lines:"

-- The character at a place, counted from 0.
abbrev char_at : ℕ → Text → ℕ
char_at n [] = 0
char_at zero (c ∷ s) = c
char_at (suc n) (c ∷ s) = char_at n s

reverse_ends : (p q t u : Text) → p ++ t ≡ q ++ u → reverse t ++ reverse p ≡ reverse u ++ reverse q
reverse_ends p q t u e = sym (reverse-append p t) ∙ ap reverse e ∙ reverse-append q u

add-ne_correct : (p q : Text) → add_header p ≢ q ++ correct_end
add-ne_correct p q e = absurd (omega (arith, ap (char_at 0) (reverse_ends p q _ _ e)))

remove-ne_correct : (p q : Text) → remove_header p ≢ q ++ correct_end
remove-ne_correct p q e = absurd (omega (arith, ap (char_at 0) (reverse_ends p q _ _ e)))

-- Counted from the end, the words differ at the place 13.
remove-ne-add : (p q : Text) → remove_header p ≢ add_header q
remove-ne-add p q e = absurd (omega (arith, ap (char_at 13) (reverse_ends p q _ _ e)))

match-correct_none :
    (line : Text)
    → NoNewline line
    → ((q : Text) → line ≢ q ++ correct_end)
    → match correct_re line ≡ none
match-correct_none [] h ne = unfold match in refl
match-correct_none (c ∷ s) h ne = elim (Bool-cases (b'(' == c)) [
  | inr no_mark ↦ unfold match in rw no_mark
  | inl mark ↦
      let missed = match-ends_in-none s correct_end h.1 (λ p e. ne (c ∷ p) (ap (◌∷◌ c) e)) in
      unfold match in rw (mark, missed)
]

no_newline : Text → Bool
no_newline [] = true
no_newline (c ∷ s) = not (c == b'\n') && no_newline s

no_newline-NoNewline : (s : Text) → no_newline s ≡ true → NoNewline s
unfolding no_newline
no_newline-NoNewline [] h = tt
no_newline-NoNewline (c ∷ s) h = (ground arith, no_newline-NoNewline s (ground arith))

-- A path with words behind it that hold no newline.
line-NoNewline : (path t : Text) → NoNewline path → no_newline t ≡ true → NoNewline (path ++ t)
line-NoNewline path t h e = All-append _ path t h (no_newline-NoNewline t e)

pub classify-correct : (path : Text) → NoNewline path → classify (correct_line path) ≡ correct path
unfolding no_newline classify
classify-correct path h =
    let found = match-ends_in path correct_end (line-NoNewline path correct_end h refl) in
    unfold match in rw found

pub classify-should_add :
    (path : Text) → NoNewline path → classify (add_header path) ≡ should_add path
unfolding no_newline classify
classify-should_add path h =
    let one_line : NoNewline (add_header path) = line-NoNewline path _ h refl in
    rw (
      match-correct_none (add_header path) one_line (add-ne_correct path),
      match-ends_in path (codes " should add these lines:") one_line,
    )

pub classify-should_remove :
    (path : Text) → NoNewline path → classify (remove_header path) ≡ should_remove path
unfolding no_newline classify
classify-should_remove path h =
    let one_line : NoNewline (remove_header path) = line-NoNewline path _ h refl in
    rw (
      match-correct_none (remove_header path) one_line (remove-ne_correct path),
      match-ends_in-none (remove_header path) (codes " should add these lines:") one_line
          (remove-ne-add path),
      match-ends_in path (codes " should remove these lines:") one_line,
    )
