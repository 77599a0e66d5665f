-- ===== src/ClangFormat/Fnmatch.antt =====
-- `fnmatch.fnmatch` of the standard library, on POSIX: `*`, `?`, `[set]` and `[!set]`.
use for_montee.Base.{
  ℕ, ◌==◌, leb, Bool, true, false, not, ◌&&◌, ◌||◌, List, [], ◌∷◌, ◌++◌, Text, is_empty,
  if◌then◌else◌,
}

pub data Token : Type 0 where
  star any : Token
  chr : ℕ → Token
  -- the characters between the brackets, and if `!` stands before them
  set : Bool → Text → Token

-- The part of a set that is read: nothing yet, only a `!`, or characters.
pub data Mode : Type 0 where
  outside : Mode
  inside : (negated : Bool) (read : Text) (fallback : List Token) → Mode

-- Where `[` is never closed it stands for itself: the tokens of that reading are the fallback.
tokens : Mode → Text → List Token
tokens outside [] = []
tokens outside (c ∷ s) =
    let rest = tokens outside s in
    let open_set = tokens (inside false [] (chr c ∷ rest)) s in
    if c == b'*'
    then star ∷ rest
    else if c == b'?'
    then any ∷ rest
    else if c == b'['
    then open_set
    else chr c ∷ rest
tokens (inside negated read fallback) [] = fallback
tokens (inside negated read fallback) (c ∷ s) =
    let more = tokens (inside negated (read ++ (c ∷ [])) fallback) s in
    let inverted = tokens (inside true [] fallback) s in
    let closed = set negated read ∷ tokens outside s in
    if c == b'!' && is_empty read && not negated
    then inverted
    else if c == b']' && not (is_empty read)
    then closed
    else more

-- A character against the characters and ranges of a set.
in_set : Text → ℕ → Bool
in_set [] c = false
in_set (x ∷ []) c = c == x
in_set (x ∷ y ∷ []) c = c == x || c == y
in_set (x ∷ y ∷ z ∷ s) c =
    let pair = in_set (y ∷ z ∷ s) c in
    if y == b'-' then (leb x c && leb c z) || in_set s c else c == x || pair

abbrev xor : Bool → Bool → Bool
xor true b = not b
xor false b = b

match_tokens : List Token → Text → Bool
match_tokens [] s = is_empty s
match_tokens (star ∷ ts) [] = match_tokens ts []
match_tokens (star ∷ ts) (c ∷ s) = elim (match_tokens ts (c ∷ s)) [
  | true ↦ true
  | false ↦ match_tokens (star ∷ ts) s
]
match_tokens (any ∷ ts) [] = false
match_tokens (any ∷ ts) (c ∷ s) = match_tokens ts s
match_tokens (chr d ∷ ts) [] = false
match_tokens (chr d ∷ ts) (c ∷ s) = d == c && match_tokens ts s
match_tokens (set negated chars ∷ ts) [] = false
match_tokens (set negated chars ∷ ts) (c ∷ s) = xor negated (in_set chars c) && match_tokens ts s

unfoldable pub fnmatch : Text → Text → Bool
unfolding tokens match_tokens in_set
fnmatch name pattern_text = match_tokens (tokens outside pattern_text) name
