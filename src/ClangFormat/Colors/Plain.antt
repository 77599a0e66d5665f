-- ===== src/ClangFormat/Colors/Plain.antt =====
-- The colours add escape sequences and change no text.
use for_montee.Base.{
  ◌==◌, ◌≡◌, refl, ap, sym, ◌∙◌, Bool, true, false, List, [], ◌∷◌, ◌++◌, append-nil, map, Text,
  codes, contains, starts_with, take, All, if◌then◌else◌, Bool-cases, inl, inr,
}
use for_montee.ClangFormat.Colors.{esc, sequence, wrapped, headers, colorize_line, print_diff}

-- A text without its escape sequences: from an escape character on, all is left out through the
-- next `m`. The flag tells if one is open.
unfoldable pub plain_from : Bool → Text → Text
plain_from open_sequence [] = []
plain_from true (c ∷ s) = plain_from (if c == b'm' then false else true) s
plain_from false (c ∷ s) = elim (c == esc) [
  | true ↦ plain_from true s
  | false ↦ c ∷ plain_from false s
]

unfoldable pub plain : Text → Text
unfolding plain_from
plain = plain_from false

abbrev pub NoEscape : Text → Type 0
NoEscape = All (λ c. (c == esc) ≡ false)

pub plain_from-NoEscape :
    (s t : Text) → NoEscape s → plain_from false (s ++ t) ≡ s ++ plain_from false t
unfolding plain_from
plain_from-NoEscape [] t h = refl
plain_from-NoEscape (c ∷ s) t (h, hs) = rw (h, plain_from) (ap (◌∷◌ c) (plain_from-NoEscape s t hs))

-- The four wrappers of `colorize`.
plain-wrapped :
    (n line : Text)
    → ((t : Text) → plain_from false (sequence n ++ t) ≡ plain_from false t)
    → NoEscape line
    → plain (wrapped n line) ≡ line
unfolding plain
plain-wrapped n line opens h = opens _ ∙ plain_from-NoEscape line _ h ∙ append-nil line

plain_line : (line : Text) → NoEscape line → plain line ≡ line
unfolding plain
plain_line line h =
    ap (plain_from false) (sym (append-nil line)) ∙ plain_from-NoEscape line [] h ∙ append-nil line

plain-colorize_line : (line : Text) → NoEscape line → plain (colorize_line line) ≡ line
unfolding colorize_line plain_from
plain-colorize_line line h = elim (Bool-cases (contains headers (take 4 line))) [
  | inl header ↦ rw header (plain-wrapped (codes "1") line (λ t. refl) h)
  | inr body ↦ rw body (elim (Bool-cases (starts_with line (codes "@@ "))) [
    | inl hunk ↦ rw hunk (plain-wrapped (codes "36") line (λ t. refl) h)
    | inr other ↦ rw other (elim (Bool-cases (starts_with line (codes "+"))) [
      | inl added ↦ rw added (plain-wrapped (codes "32") line (λ t. refl) h)
      | inr kept ↦ rw kept (elim (Bool-cases (starts_with line (codes "-"))) [
        | inl removed ↦ rw removed (plain-wrapped (codes "31") line (λ t. refl) h)
        | inr same ↦ rw same (plain_line line h)
      ])
    ])
  ])
]

map-plain :
    (f : Text → Text) (lines : List Text)
    → ((line : Text) → NoEscape line → plain (f line) ≡ line)
    → All NoEscape lines
    → map plain (map f lines) ≡ lines
map-plain f [] e h = refl
map-plain f (line ∷ lines) e (one, h) =
    ap (λ t. t ∷ map plain (map f lines)) (e line one) ∙ ap (◌∷◌ line) (map-plain f lines e h)

map-plain_lines : (lines : List Text) → All NoEscape lines → map plain lines ≡ lines
map-plain_lines [] h = refl
map-plain_lines (line ∷ lines) (one, h) =
    ap (λ t. t ∷ map plain lines) (plain_line line one) ∙ ap (◌∷◌ line) (map-plain_lines lines h)

-- Without its escape sequences, what `print_diff` writes is the diff, with colours or not, where
-- the diff holds no escape character of its own.
pub map-plain-print_diff :
    (diff_lines : List Text) (use_color : Bool)
    → All NoEscape diff_lines
    → map plain (print_diff diff_lines use_color) ≡ diff_lines
unfolding print_diff
map-plain-print_diff diff_lines true h = map-plain colorize_line diff_lines plain-colorize_line h
map-plain-print_diff diff_lines false h = map-plain_lines diff_lines h
