-- ===== src/Base/PosixPath.antt =====
-- `os.path` on POSIX (the standard library's `posixpath`), as far as it works on the text alone.
use Prim.Native.Nat.{ℕ}
use mathlib.Core.Path.{◌≡◌, refl, sym, ap, ◌∙◌}
use native.Mathlib.Omega.{arith}
use mathlib.Core.Bool.{Bool, true, false, not, ◌&&◌, ◌||◌}
use mathlib.Core.List.{List, [], ◌∷◌, ◌++◌, reverse, append-nil, append_assoc}
use for_montee.Base.Bools.{◌==◌, if◌then◌else◌}
use for_montee.Base.Lists.{replicate, is_empty, All}
use for_montee.Base.Strings.{Text, codes, text_eq, starts_with, ends_with, rstrip}
use for_montee.Base.Strings

-- `s.split(c)` for one character; `part` is what has been read of a part.
split_onto : ℕ → Text → Text → List Text
split_onto c part [] = part ∷ []
split_onto c part (d ∷ s) = elim (d == c) [
  | true ↦ part ∷ split_onto c [] s
  | false ↦ split_onto c (part ++ (d ∷ [])) s
]

unfoldable pub split : ℕ → Text → List Text
unfolding split_onto
split c = split_onto c []

unfoldable pub isabs : Text → Bool
unfolding starts_with
isabs p = starts_with p (b'/' ∷ [])

-- `os.path.join(a, b)`
unfoldable pub path_join : Text → Text → Text
unfolding isabs ends_with
path_join a b =
    if isabs b then b else if is_empty a || ends_with a (b'/' ∷ []) then a ++ b else a ++ (b'/' ∷ b)

-- `s[:s.rfind(c) + 1]`
unfoldable pub through_last : ℕ → Text → Text
through_last c [] = []
through_last c (d ∷ s) = elim (through_last c s) [
  | [] ↦ if d == c then d ∷ [] else []
  | e ∷ t ↦ d ∷ e ∷ t
]

has_char : ℕ → Text → Bool
has_char c [] = false
has_char c (d ∷ s) = d == c || has_char c s

-- `s[s.rfind(c) + 1:]`
unfoldable pub after_last : ℕ → Text → Text
unfolding has_char
after_last c [] = []
after_last c (d ∷ s) =
    let later = after_last c s in if has_char c s then later else if d == c then s else d ∷ s

all_char : ℕ → Text → Bool
all_char c [] = true
all_char c (d ∷ s) = d == c && all_char c s

unfoldable pub dirname : Text → Text
unfolding through_last all_char rstrip
dirname p = let head = through_last b'/' p in if all_char b'/' head then head else rstrip b'/' head

-- `s.lstrip(c)` for one character
lstrip : ℕ → Text → Text
lstrip c [] = []
lstrip c (d ∷ s) = let rest = lstrip c s in if d == c then rest else d ∷ s

-- `os.path.splitext(p)[1]`: dots that begin the last component begin no extension.
unfoldable pub extension : Text → Text
unfolding lstrip has_char after_last
extension p =
    let name = lstrip b'.' (after_last b'/' p) in
    if has_char b'.' name then b'.' ∷ after_last b'.' name else []

-- `initial_slashes`
initial_slashes : Text → ℕ
initial_slashes p =
    if not (starts_with p (codes "/"))
    then 0
    else if starts_with p (codes "//") && not (starts_with p (codes "///"))
    then 2
    else 1

is_parent : Text → Bool
is_parent comp = text_eq comp (codes "..")

top_is_parent : List Text → Bool
top_is_parent [] = false
top_is_parent (comp ∷ comps) = is_parent comp

pop : List Text → List Text
pop [] = []
pop (comp ∷ comps) = comps

-- One component of `normpath`; `stack` is `new_comps` with its end first.
normal_step : Bool → List Text → Text → List Text
normal_step rooted stack comp =
    if is_empty comp || text_eq comp (codes ".")
    then stack
    else if not (is_parent comp) || (not rooted && is_empty stack) || top_is_parent stack
    then comp ∷ stack
    else pop stack

normal_stack : Bool → List Text → List Text → List Text
normal_stack rooted stack [] = stack
normal_stack rooted stack (comp ∷ comps) = normal_stack rooted (normal_step rooted stack comp) comps

or_dot : Text → Text
or_dot [] = codes "."
or_dot (c ∷ s) = c ∷ s

unfoldable pub normpath : Text → Text
unfolding initial_slashes split normal_stack normal_step is_parent top_is_parent pop or_dot
    starts_with text_eq Strings.join
normpath p =
    let slashes = initial_slashes p in
    let comps = reverse (normal_stack (not (slashes == 0)) [] (split b'/' p)) in
    or_dot (replicate slashes b'/' ++ Strings.join (codes "/") comps)

split_onto-part :
    (c : ℕ) (before part rest : Text)
    → All (λ d. d == c ≡ false) part
    → split_onto c before (part ++ rest) ≡ split_onto c (before ++ part) rest
unfolding split_onto
split_onto-part c before [] rest h = rw (append-nil before) refl
split_onto-part c before (d ∷ part) rest h =
    rw (split_onto, h.0)
      (split_onto-part c (before ++ (d ∷ [])) part rest h.1
        ∙ ap (λ x. split_onto c x rest) (append_assoc before (d ∷ []) part))

same_character : (c : ℕ) → c == c ≡ true
same_character c = ground arith

-- Parts that do not hold the separator are read back.
pub split-join :
    (c : ℕ) (part : Text) (parts : List Text)
    → All (All (λ d. d == c ≡ false)) (part ∷ parts)
    → split c (Strings.join (c ∷ []) (part ∷ parts)) ≡ part ∷ parts
unfolding split split_onto Strings.join
split-join c part [] h =
    ap (split_onto c []) (sym (append-nil part)) ∙ split_onto-part c [] part [] h.0
split-join c part (next ∷ parts) h =
    split_onto-part c [] part (c ∷ Strings.join (c ∷ []) (next ∷ parts)) h.0
    ∙ rw (split_onto, same_character c) (ap (◌∷◌ part) (split-join c next parts h.1))
