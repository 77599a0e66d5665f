-- ===== src/ClangFormat/Excludes/Lines.antt =====
-- An ignore file that is written from patterns, comments and empty lines is read back.
use for_montee.Base.{
  ◌≡◌, refl, ap, ◌∙◌, false, List, map, [], ◌∷◌, ◌++◌, Text, is_empty, All, rstrip_space, IsSpaces,
  rstrip_space-spaces, rstrip_space-append, Bool-cases, inl, inr,
}
use for_montee.ClangFormat.Excludes.{
  is_comment, exclude_line, exclude_lines, opened, excludes, excludes_from_file,
}

-- A line of the file before the white space at its end.
pub data Item : Type 0 where
  comment pattern : Text → Item
  empty : Item

-- The line with white space behind it, its newline included.
pub record Line : Type 0 where
  pub item : Item
  pub space : Text

abbrev pub written : Line → Text
written l = elim l.item [
  | comment s ↦ b'#' ∷ (s ++ l.space)
  | pattern s ↦ s ++ l.space
  | empty ↦ l.space
]

abbrev pub patterns : List Line → List Text
patterns [] = []
patterns (l ∷ ls) = elim l.item [
  | comment s ↦ patterns ls
  | pattern s ↦ s ∷ patterns ls
  | empty ↦ patterns ls
]

-- Not empty, with no white space at the end, and no comment.
abbrev IsPattern : Text → Type 0
IsPattern s = (rstrip_space s ≡ s) × (is_comment s ≡ false) × (is_empty s ≡ false)

abbrev IsItem : Item → Type 0
IsItem (comment s) = Unit
IsItem (pattern s) = IsPattern s
IsItem empty = Unit

abbrev pub IsLine : Line → Type 0
IsLine l = IsSpaces l.space × IsItem l.item

exclude_line-pattern :
    (line kept_part : Text) (rest : List Text)
    → is_comment line ≡ false
    → rstrip_space line ≡ kept_part
    → is_empty kept_part ≡ false
    → exclude_line line rest ≡ kept_part ∷ rest
unfolding exclude_line
exclude_line-pattern line kept_part rest plain kept full = rw (kept, full) (rw plain)

exclude_line-spaces :
    (line : Text) (rest : List Text) → rstrip_space line ≡ [] → exclude_line line rest ≡ rest
unfolding exclude_line
exclude_line-spaces line rest e = elim (Bool-cases (is_comment line)) [
  | inl mark ↦ rw mark
  | inr plain ↦ rw (plain, e)
]

patterns-cons : (l : Line) (ls : List Line) → patterns (l ∷ []) ++ patterns ls ≡ patterns (l ∷ ls)
patterns-cons l ls = by_item l.item
  where
    by_item :
        (i : Item)
        → elim i [ comment s ↦ [] | pattern s ↦ s ∷ [] | empty ↦ [] ] ++ patterns ls
          ≡ elim i [ comment s ↦ patterns ls | pattern s ↦ s ∷ patterns ls | empty ↦ patterns ls ]
    by_item (comment s) = refl
    by_item (pattern s) = refl
    by_item empty = refl

exclude_line-written :
    (l : Line) (rest : List Text)
    → IsLine l
    → exclude_line (written l) rest ≡ patterns (l ∷ []) ++ rest
unfolding exclude_line
exclude_line-written l rest h = by_item l.item l.space h.0 h.1
  where
    by_item :
        (i : Item) (space : Text)
        → IsSpaces space
        → IsItem i
        → exclude_line (written (record { item = i; space = space })) rest
          ≡ patterns (record { item = i; space = space } ∷ []) ++ rest
    by_item (comment s) space h i = refl
    by_item (pattern []) space h (kept, plain, full) = cc
    by_item (pattern (c ∷ s)) space h (kept, plain, full) =
        exclude_line-pattern (c ∷ s ++ space) (c ∷ s) rest plain
          (rstrip_space-append (c ∷ s) space h ∙ kept) full
    by_item empty space h i = exclude_line-spaces space rest (rstrip_space-spaces space h)

exclude_line-excludes :
    (l : Line) (ls : List Line)
    → IsLine l
    → excludes (exclude_lines (map written ls)) ≡ excludes (patterns ls)
    → excludes (exclude_line (written l) (exclude_lines (map written ls)))
      ≡ excludes (patterns (l ∷ ls))
exclude_line-excludes l ls one ih =
    let same : exclude_lines (map written ls) ≡ patterns ls = cc in
    ap excludes (rw same (exclude_line-written l (patterns ls) one) ∙ patterns-cons l ls)

-- What is read back of lines that are written from comments, empty lines and patterns, with any
-- white space at their ends, is the patterns in their order.
pub excludes_from_file-written :
    (ls : List Line)
    → All IsLine ls
    → excludes_from_file (opened (map written ls)) ≡ excludes (patterns ls)
unfolding excludes_from_file
excludes_from_file-written [] h = refl
excludes_from_file-written (l ∷ ls) (one, h) =
    exclude_line-excludes l ls one (excludes_from_file-written ls h)
