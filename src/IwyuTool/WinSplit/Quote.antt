-- ===== src/IwyuTool/WinSplit/Quote.antt =====
-- Arguments quoted by the rules that `win_split` cites, and read back by it.
use for_montee.Base.{
  ℕ, zero, suc, ◌+◌, ◌/◌, ◌%◌, ◌==◌, ◌≡◌, refl, sym, ap, ◌∙◌, Bool, true, false, not, List, [], ◌∷◌,
  ◌++◌, append-nil, append_assoc, Text, codes, keep, is_empty, map, join, arith, if◌then◌else◌,
  Bool-cases, inl, inr, ==_iff,
}
use for_montee.IwyuTool.WinSplit.{
  SplitState, slashes, at_quote, split_char, split_chars, split_end, win_split,
}

-- The text between the quotation marks, behind `n` backslashes that are not yet written.
unfoldable pub escape : ℕ → Text → Text
escape n [] = slashes (n + n)
escape n (c ∷ cs) =
    let counted = escape (n + 1) cs in
    let fresh = escape 0 cs in
    if c == b'\\'
    then counted
    else if c == b'"'
    then slashes (suc (n + n)) ++ (b'"' ∷ fresh)
    else slashes n ++ (c ∷ fresh)

unfoldable pub quote : Text → Text
unfolding escape
quote arg = b'"' ∷ (escape 0 arg ++ (b'"' ∷ []))

unfoldable pub command_line : List Text → Text
unfolding quote join
command_line args = join (codes " ") (map quote args)

pub slashes-suc : (n : ℕ) (rest : Text) → slashes n ++ (b'\\' ∷ rest) ≡ b'\\' ∷ (slashes n ++ rest)
slashes-suc zero rest = refl
slashes-suc (suc n) rest = ap (◌∷◌ b'\\') (slashes-suc n rest)

pub slashes-add : (m n : ℕ) → slashes (m + n) ≡ slashes m ++ slashes n
slashes-add zero n = ap slashes (omega arith)
slashes-add (suc m) n =
    let e : suc m + n ≡ suc (m + n) = omega arith in rw e (ap (◌∷◌ b'\\') (slashes-add m n))

-- Backslashes are counted, and nothing else happens.
pub split_chars-slashes :
    (n : ℕ) (s : SplitState) (rest : Text)
    → split_chars s (slashes n ++ rest)
      ≡ split_chars (record s { backslashes = s.backslashes + n }) rest
unfolding split_chars
split_chars-slashes zero s rest =
    ap (λ k. split_chars (record s { backslashes = k }) rest) (omega arith)
split_chars-slashes (suc n) s rest =
    split_chars-slashes n (record s { backslashes = s.backslashes + 1 }) rest
    ∙ ap (λ k. split_chars (record s { backslashes = k }) rest) (omega arith)

-- The state inside the quotation marks, and the state behind them.
abbrev inside : ℕ → Text → List Text → SplitState
inside n arg out = record { in_quotes = true; backslashes = n; arg = arg; yielded = out }

abbrev behind : Text → List Text → SplitState
behind arg out = record { in_quotes = false; backslashes = 0; arg = arg; yielded = out }

split_char-plain :
    (c n : ℕ) (arg : Text) (out : List Text)
    → (c == b'\\') ≡ false
    → (c == b'"') ≡ false
    → split_char (inside n arg out) c ≡ inside 0 ((arg ++ slashes n) ++ (c ∷ [])) out
unfolding split_char
split_char-plain c n arg out h k = ground arith

at_quote-odd :
    (n : ℕ) (arg : Text) (out : List Text)
    → at_quote (inside (suc (n + n)) arg out) ≡ inside 0 ((arg ++ slashes n) ++ (b'"' ∷ [])) out
unfolding at_quote
at_quote-odd n arg out =
    let half : suc (n + n) / 2 ≡ n = omega arith in
    let odd : suc (n + n) % 2 ≡ 1 = omega arith in rw (half, odd)

at_quote-even :
    (n : ℕ) (arg : Text) (out : List Text)
    → at_quote (inside (n + n) arg out) ≡ behind (arg ++ slashes n) out
unfolding at_quote
at_quote-even n arg out =
    let half : (n + n) / 2 ≡ n = omega arith in
    let even : (n + n) % 2 ≡ 0 = omega arith in rw (half, even)

split_chars-quote :
    (n : ℕ) (arg : Text) (out : List Text) (rest : Text)
    → split_chars (inside n arg out) (b'"' ∷ rest) ≡ split_chars (at_quote (inside n arg out)) rest
unfolding split_chars at_quote
split_chars-quote n arg out rest = refl

split_chars-plain :
    (c n : ℕ) (arg : Text) (out : List Text) (rest : Text)
    → (c == b'\\') ≡ false
    → (c == b'"') ≡ false
    → split_chars (inside n arg out) (c ∷ rest)
      ≡ split_chars (inside 0 ((arg ++ slashes n) ++ (c ∷ [])) out) rest
unfolding split_chars
split_chars-plain c n arg out rest h k =
    ap (λ s. split_chars s rest) (split_char-plain c n arg out h k)

-- A run of backslashes and the text behind it, met in the state inside the marks.
split_chars_run :
    (n m : ℕ) (arg : Text) (out : List Text) (rest : Text)
    → n ≡ m
    → split_chars (inside 0 arg out) (slashes n ++ rest) ≡ split_chars (inside m arg out) rest
split_chars_run n m arg out rest e =
    let same : 0 + n ≡ m = omega arith in
    split_chars-slashes n (inside 0 arg out) rest
    ∙ ap (λ k. split_chars (inside k arg out) rest) same

regroup_slash :
    (n : ℕ) (arg cs : Text) → (arg ++ slashes (n + 1)) ++ cs ≡ (arg ++ slashes n) ++ (b'\\' ∷ cs)
regroup_slash n arg cs = rw (slashes-add n 1) (simp append_assoc)

split_chars_mark :
    (n : ℕ) (arg : Text) (out : List Text) (fresh more : Text)
    → split_chars (inside 0 arg out) ((slashes (suc (n + n)) ++ (b'"' ∷ fresh)) ++ more)
      ≡ split_chars (inside 0 ((arg ++ slashes n) ++ (b'"' ∷ [])) out) (fresh ++ more)
split_chars_mark n arg out fresh more =
    rw append_assoc (split_chars_run (suc (n + n)) (suc (n + n)) arg out _ refl)
    ∙ split_chars-quote (suc (n + n)) arg out (fresh ++ more)
    ∙ ap (λ s. split_chars s (fresh ++ more)) (at_quote-odd n arg out)

split_chars_other :
    (c n : ℕ) (arg : Text) (out : List Text) (fresh more : Text)
    → (c == b'\\') ≡ false
    → (c == b'"') ≡ false
    → split_chars (inside 0 arg out) ((slashes n ++ (c ∷ fresh)) ++ more)
      ≡ split_chars (inside 0 ((arg ++ slashes n) ++ (c ∷ [])) out) (fresh ++ more)
split_chars_other c n arg out fresh more h k =
    rw append_assoc (split_chars_run n n arg out _ refl) ∙ split_chars-plain c n arg out _ h k

regroup_char :
    (c n : ℕ) (arg cs : Text)
    → (((arg ++ slashes n) ++ (c ∷ [])) ++ slashes 0) ++ cs ≡ (arg ++ slashes n) ++ (c ∷ cs)
regroup_char c n arg cs = simp (append_assoc, append-nil)

-- Inside the quotation marks the escaped text is read back up to the closing mark.
split_chars-escape :
    (a : Text) (n : ℕ) (arg : Text) (out : List Text) (rest : Text)
    → split_chars (inside 0 arg out) (escape n a ++ (b'"' ∷ rest))
      ≡ split_chars (behind ((arg ++ slashes n) ++ a) out) rest
unfolding escape
split_chars-escape [] n arg out rest =
    split_chars_run (n + n) (n + n) arg out (b'"' ∷ rest) refl
    ∙ rw (split_chars-quote, at_quote-even n arg out, append-nil)
split_chars-escape (c ∷ cs) n arg out rest =
    let after : Text → SplitState = λ t. behind t out in
    elim (Bool-cases (c == b'\\')) [
      | inl slash ↦
          rw (slash, (==_iff c b'\\').0 slash)
            (split_chars-escape cs (n + 1) arg out rest
              ∙ ap (λ t. split_chars (behind t out) rest) (regroup_slash n arg cs))
      | inr plain ↦ elim (Bool-cases (c == b'"')) [
        | inl mark ↦
            rw (plain, mark, (==_iff c b'"').0 mark)
              (split_chars_mark n arg out (escape 0 cs) (b'"' ∷ rest)
                ∙ split_chars-escape cs 0 _ out rest
                ∙ ap (λ t. split_chars (after t) rest) (regroup_char b'"' n arg cs))
        | inr other ↦
            rw (plain, other)
              (split_chars_other c n arg out (escape 0 cs) (b'"' ∷ rest) plain other
                ∙ split_chars-escape cs 0 _ out rest
                ∙ ap (λ t. split_chars (after t) rest) (regroup_char c n arg cs))
      ]
    ]

split_chars_quoted :
    (a : Text) (out : List Text) (rest : Text)
    → split_chars (behind [] out) (quote a ++ rest) ≡ split_chars (behind a out) rest
unfolding split_chars quote
split_chars_quoted a out rest =
    ap (split_chars (inside 0 [] out)) (append_assoc (escape 0 a) _ rest)
    ∙ split_chars-escape a 0 [] out rest

abbrev pub nonempty : Text → Bool
nonempty a = not (is_empty a)

-- The arguments with at least one character.
abbrev pub present : List Text → List Text
present = keep nonempty

split_char_blank :
    (a : Text) (out : List Text)
    → split_char (behind a out) b' ' ≡ behind [] (out ++ present (a ∷ []))
unfolding split_char
split_char_blank [] out = ap (λ l. behind [] l) (sym (append-nil out))
split_char_blank (c ∷ a) out = ap (λ t. behind [] (out ++ (t ∷ []))) (append-nil (c ∷ a))

split_end-behind : (a : Text) (out : List Text) → split_end (behind a out) ≡ out ++ present (a ∷ [])
unfolding split_end
split_end-behind [] out = rw append-nil
split_end-behind (c ∷ a) out = rw append-nil

present-cons :
    (a : Text) (more out : List Text)
    → (out ++ present (a ∷ [])) ++ present more ≡ out ++ present (a ∷ more)
present-cons [] more out = rw append-nil
present-cons (c ∷ a) more out = append_assoc out _ _

split_chars-command_line :
    (a : Text) (more out : List Text)
    → split_end (split_chars (behind [] out) (command_line (a ∷ more))) ≡ out ++ present (a ∷ more)
unfolding command_line split_chars
split_chars-command_line a [] out =
    ap (λ t. split_end (split_chars (behind [] out) t)) (sym (append-nil (quote a)))
    ∙ ap split_end (split_chars_quoted a out [])
    ∙ split_end-behind a out
split_chars-command_line a (b ∷ more) out =
    ap split_end (split_chars_quoted a out (b' ' ∷ command_line (b ∷ more)))
    ∙ ap (λ s. split_end (split_chars s (command_line (b ∷ more)))) (split_char_blank a out)
    ∙ split_chars-command_line b more (out ++ present (a ∷ []))
    ∙ present-cons a (b ∷ more) out

-- Any arguments, quoted by the rules and joined by spaces, are read back by `win_split` in order,
-- whatever quotation marks, backslashes and spaces they hold, but the empty ones are lost.
pub win_split-command_line : (args : List Text) → win_split (command_line args) ≡ present args
unfolding win_split command_line
win_split-command_line [] = refl
win_split-command_line (a ∷ more) = split_chars-command_line a more []
