-- ===== src/IwyuTool/Regex.antt =====
-- Python's `re.match`, for the pieces of which the patterns of tools/iwyu_tool.py are made.
pub mod Suffix
use for_montee.Base.{
  ℕ, ◌==◌, leb, Bool, true, false, ◌&&◌, ◌||◌, List, [], ◌∷◌, Option, none, some, Text,
  if◌then◌else◌,
}

pub data Piece : Type 0 where
  -- characters that stand for themselves
  lit : Text → Piece
  -- `(.*?)` and `(.*)`
  lazy greedy : Piece
  -- ` +`
  spaces : Piece
  -- `([0-9]+)` and `[0-9]+`
  number digits : Piece
  -- `$`
  end : Piece

-- What remains of a match: the groups that it captures in the text that is left.
abbrev Rest : Type 0
Rest = Text → Option (List Text)

abbrev or_else : Option (List Text) → Option (List Text) → Option (List Text)
or_else none o = o
or_else (some gs) o = some gs

-- A new group in front, and one more character in front of the first group.
abbrev pub open_group : Option (List Text) → Option (List Text)
open_group none = none
open_group (some gs) = some ([] ∷ gs)

abbrev pub extend : ℕ → Option (List Text) → Option (List Text)
extend c (some (g ∷ gs)) = some ((c ∷ g) ∷ gs)
extend c _ = none

abbrev is_digit : ℕ → Bool
is_digit c = leb b'0' c && leb c b'9'

match_lit : Text → Rest → Rest
match_lit [] k s = k s
match_lit (c ∷ t) k [] = none
match_lit (c ∷ t) k (d ∷ s) = if c == d then match_lit t k s else none

-- The shortest group first. The dot does not match a newline.
match_lazy : Rest → Rest
match_lazy k [] = open_group (k [])
match_lazy k (c ∷ s) =
    let longer = match_lazy k s in
    or_else (open_group (k (c ∷ s))) (if c == b'\n' then none else extend c longer)

-- The longest group first.
match_greedy : Rest → Rest
match_greedy k [] = open_group (k [])
match_greedy k (c ∷ s) =
    let longer = match_greedy k s in
    or_else (if c == b'\n' then none else extend c longer) (open_group (k (c ∷ s)))

-- Characters of a class, the longest run first, and at least one.
match_run : (ℕ → Bool) → Rest → Rest
match_run p k [] = k []
match_run p k (c ∷ s) =
    let longer = match_run p k s in or_else (if p c then longer else none) (k (c ∷ s))

match_plus : (ℕ → Bool) → Rest → Rest
match_plus p k [] = none
match_plus p k (c ∷ s) = if p c then match_run p k s else none

-- The same with a group round the run.
match_group_run : (ℕ → Bool) → Rest → Rest
match_group_run p k [] = open_group (k [])
match_group_run p k (c ∷ s) =
    let longer = match_group_run p k s in
    or_else (if p c then extend c longer else none) (open_group (k (c ∷ s)))

match_group_plus : (ℕ → Bool) → Rest → Rest
match_group_plus p k [] = none
match_group_plus p k (c ∷ s) = if p c then extend c (match_group_run p k s) else none

-- The end of the text, or a newline that ends it.
match_end : Rest → Rest
match_end k [] = k []
match_end k (c ∷ []) = if c == b'\n' then k (c ∷ []) else none
match_end k (c ∷ d ∷ s) = none

-- `re.match(pattern, s)`: the groups, or none.
unfoldable pub match : List Piece → Text → Option (List Text)
unfolding match_lit match_lazy match_greedy match_run match_plus match_group_run match_group_plus
    match_end
match [] s = some []
match (lit t ∷ ps) s = match_lit t (match ps) s
match (lazy ∷ ps) s = match_lazy (match ps) s
match (greedy ∷ ps) s = match_greedy (match ps) s
match (spaces ∷ ps) s = match_plus (λ c. c == b' ') (match ps) s
match (digits ∷ ps) s = match_plus is_digit (match ps) s
match (number ∷ ps) s = match_group_plus is_digit (match ps) s
match (end ∷ ps) s = match_end (match ps) s
