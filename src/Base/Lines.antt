-- ===== src/Base/Lines.antt =====
-- Lines of a text, and white space at its end.
use Prim.Native.Nat.{ℕ}
use mathlib.Core.Path.{◌≡◌, refl, ap, ◌∙◌}
use mathlib.Core.Bool.{Bool, true, false, ◌&&◌, ◌||◌}
use mathlib.Core.List.{List, [], ◌∷◌, ◌++◌, append_assoc, append-nil}
use for_montee.Base.Bools.{leb, ◌==◌, if◌then◌else◌}
use for_montee.Base.Lists.{All}
use for_montee.Base.Strings.{Text, is_space}

-- `s.rstrip()`
unfoldable pub rstrip_space : Text → Text
rstrip_space [] = []
rstrip_space (c ∷ s) = elim (rstrip_space s) [
  | [] ↦ if is_space c then [] else c ∷ []
  | d ∷ t ↦ c ∷ d ∷ t
]

abbrev pub IsSpaces : Text → Type 0
IsSpaces = All (λ c. is_space c ≡ true)

pub rstrip_space-spaces : (s : Text) → IsSpaces s → rstrip_space s ≡ []
unfolding rstrip_space
rstrip_space-spaces [] h = refl
rstrip_space-spaces (c ∷ s) (space, h) = rw (rstrip_space-spaces s h, rstrip_space) (rw space)

pub rstrip_space-append : (t s : Text) → IsSpaces s → rstrip_space (t ++ s) ≡ rstrip_space t
unfolding rstrip_space
rstrip_space-append [] s h = rstrip_space-spaces s h
rstrip_space-append (c ∷ t) s h = rw (rstrip_space-append t s h, rstrip_space)

-- A character at which `str.splitlines` ends a line.
abbrev pub is_line_end : ℕ → Bool
is_line_end c =
    (leb 10 c && leb c 13) || (leb 28 c && leb c 30) || c == 0x85 || c == 0x2028 || c == 0x2029

-- `line` is what has been read of a line, and tells if anything has; `\r\n` ends one line.
split_lines_from : Text → Bool → Text → List Text
split_lines_from line open_line [] = if open_line then line ∷ [] else []
split_lines_from line open_line (c ∷ []) =
    if is_line_end c then line ∷ [] else (line ++ (c ∷ [])) ∷ []
split_lines_from line open_line (c ∷ d ∷ s) = elim (is_line_end c) [
  | false ↦ split_lines_from (line ++ (c ∷ [])) true (d ∷ s)
  | true ↦ elim (c == b'\r' && d == b'\n') [
    | true ↦ line ∷ split_lines_from [] false s
    | false ↦ line ∷ split_lines_from [] false (d ∷ s)
  ]
]

-- `s.splitlines()`
unfoldable pub split_lines : Text → List Text
unfolding split_lines_from
split_lines s = split_lines_from [] false s

-- Each line with a newline behind it.
abbrev pub with_newlines : List Text → Text
with_newlines [] = []
with_newlines (line ∷ lines) = line ++ (b'\n' ∷ with_newlines lines)

-- A line that `str.splitlines` does not split.
abbrev pub IsOneLine : Text → Type 0
IsOneLine = All (λ c. is_line_end c ≡ false)

split_lines_from-line :
    (before line rest : Text) (open_line : Bool)
    → IsOneLine line
    → split_lines_from before open_line (line ++ (b'\n' ∷ rest))
      ≡ (before ++ line) ∷ split_lines_from [] false rest
unfolding split_lines_from
split_lines_from-line before [] [] open_line h = rw (append-nil before) refl
split_lines_from-line before [] (d ∷ rest) open_line h = rw (append-nil before) refl
split_lines_from-line before (c ∷ []) rest open_line h =
    rw (split_lines_from, h.0)
      (split_lines_from-line (before ++ (c ∷ [])) [] rest true tt
        ∙ ap (λ x. x ∷ split_lines_from [] false rest) (append-nil (before ++ (c ∷ []))))
split_lines_from-line before (c ∷ d ∷ line) rest open_line h =
    rw (split_lines_from, h.0)
      (split_lines_from-line (before ++ (c ∷ [])) (d ∷ line) rest true h.1
        ∙ ap (λ x. x ∷ split_lines_from [] false rest) (append_assoc before (c ∷ []) (d ∷ line)))

-- Lines that are written with their newlines are read back.
pub split_lines-with_newlines :
    (lines : List Text) → All IsOneLine lines → split_lines (with_newlines lines) ≡ lines
unfolding split_lines
split_lines-with_newlines [] h = refl
split_lines-with_newlines (line ∷ lines) h =
    split_lines_from-line [] line (with_newlines lines) false h.0
    ∙ ap (◌∷◌ line) (split_lines-with_newlines lines h.1)
