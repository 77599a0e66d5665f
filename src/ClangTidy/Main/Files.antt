-- ===== src/ClangTidy/Main/Files.antt =====
-- The names that `main` of tools/run-clang-tidy.py puts in the queue: the set of the paths of the
-- database, in any order, less those that the filter does not match.
use mathlib.Core.List.{Perm}
use for_montee.Base.{
  ℕ, ◌+◌, ◌≡◌, ◌↔◌, refl, ap, subst, ◌∙◌, Bool, true, false, List, [], ◌∷◌, keep, Text, text_eq,
  text_eq_iff, text_eq_refl, text_eq_comm, contains, Bool-cases, inl, inr, if◌then◌else◌, fold,
  fold-perm, arith,
}
use for_montee.ClangTidy.Workers.Totals.{total, is_name}
use for_montee.ClangTidy.Main.{unique}

total-fold : (w : Text → ℕ) (xs : List Text) (n : ℕ) → fold (λ n x. n + w x) n xs ≡ n + total w xs
total-fold w [] n = omega arith
total-fold w (x ∷ xs) n = let ih = total-fold w xs (n + w x) in omega arith

-- The order of the names does not count for their weights.
pub total-Perm : (w : Text → ℕ) {xs ys : List Text} → Perm xs ys → total w xs ≡ total w ys
total-Perm w {xs} {ys} p =
    let left = total-fold w xs 0 in
    let right = total-fold w ys 0 in
    let start : ℕ = 0 in
    let same = fold-perm (λ (n : ℕ) (x : Text). n + w x) (λ n x y. omega arith) (hlevel) start p in
    omega arith

-- The weight of a name that the filter matches.
abbrev pub matched : (Text → Bool) → (Text → ℕ) → Text → ℕ
matched p w name = if p name then w name else 0

pub total-keep :
    (p : Text → Bool) (w : Text → ℕ) (xs : List Text) → total w (keep p xs) ≡ total (matched p w) xs
total-keep p w [] = refl
total-keep p w (x ∷ xs) = elim (Bool-cases (p x)) [
  | inl kept ↦ rw kept (ap (λ n. w x + n) (total-keep p w xs))
  | inr cut ↦ let rest = total-keep p w xs in rw cut (omega arith)
]

-- A name that is in the list weighs nothing where the list does.
contains-total :
    (w : Text → ℕ) (xs : List Text) (name : Text)
    → contains xs name ≡ true
    → total w xs ≡ 0
    → w name ≡ 0
unfolding contains
contains-total w [] name c t = absurd (cc)
contains-total w (x ∷ xs) name c t = elim (Bool-cases (text_eq name x)) [
  | inl same ↦ let e = ap w ((text_eq_iff name x).0 same) in omega arith
  | inr differ ↦ contains-total w xs name (rw differ at c) (omega arith)
]

-- What is in the set weighs nothing exactly when the list does.
pub total-unique : (w : Text → ℕ) (xs : List Text) → (total w (unique xs) ≡ 0) ↔ (total w xs ≡ 0)
total-unique w [] = (λ e. e, λ e. e)
total-unique w (x ∷ xs) =
    let (there, back) = total-unique w xs in
    elim (Bool-cases (contains xs x)) [
      | inl again ↦ rw again (
        λ e. let rest = there e in let first = contains-total w xs x again rest in omega arith,
        λ e. back (omega arith),
      )
      | inr new ↦ rw new (
        λ e. let rest = there (omega arith) in omega arith,
        λ e. let rest = back (omega arith) in omega arith,
      )
    ]

abbrev once : Bool → ℕ
once b = if b then 1 else 0

total-unique_first :
    (x : Text) (xs : List Text)
    → total (is_name x) (unique xs) ≡ once (contains xs x)
    → total (is_name x) (unique (x ∷ xs)) ≡ once (contains (x ∷ xs) x)
unfolding contains
total-unique_first x xs ih = elim (Bool-cases (contains xs x)) [
  | inl again ↦ rw (again, text_eq_refl x) (ih ∙ ap once again)
  | inr new ↦ let none_more = ih ∙ ap once new in rw (new, text_eq_refl x) (omega arith)
]

total-unique_other :
    (x name : Text) (xs : List Text)
    → text_eq x name ≡ false
    → total (is_name name) (unique xs) ≡ once (contains xs name)
    → total (is_name name) (unique (x ∷ xs)) ≡ once (contains (x ∷ xs) name)
unfolding contains
total-unique_other x name xs differ ih =
    let differs = text_eq_comm name x ∙ differ in
    elim (Bool-cases (contains xs x)) [
      | inl again ↦ rw (again, differs) ih
      | inr new ↦ rw (new, differs, differ) (omega (arith, ih))
    ]

-- A name is in the set once, or not at all.
pub total-unique_once :
    (name : Text) (xs : List Text)
    → total (is_name name) (unique xs) ≡ (if contains xs name then 1 else 0)
unfolding contains
total-unique_once name [] = refl
total-unique_once name (x ∷ xs) = elim (Bool-cases (text_eq x name)) [
  | inl same ↦
      let e = (text_eq_iff x name).0 same in
      subst (λ y. total (is_name y) (unique (x ∷ xs)) ≡ once (contains (x ∷ xs) y)) e
        (total-unique_first x xs (total-unique_once x xs))
  | inr differ ↦ total-unique_other x name xs differ (total-unique_once name xs)
]

matched-is_name :
    (p : Text → Bool) (name x : Text)
    → matched p (is_name name) x ≡ (if p name then is_name name x else 0)
matched-is_name p name x = elim (Bool-cases (text_eq x name)) [
  | inl same ↦ let e = ap p ((text_eq_iff x name).0 same) in rw (matched, e) refl
  | inr differ ↦ ground (arith, differ)
]

pub total-matched_name :
    (p : Text → Bool) (name : Text) (xs : List Text)
    → total (matched p (is_name name)) xs ≡ (if p name then total (is_name name) xs else 0)
total-matched_name p name [] = elim (Bool-cases (p name)) [
  | inl kept ↦ rw kept refl
  | inr cut ↦ rw cut refl
]
total-matched_name p name (x ∷ xs) =
    let first = matched-is_name p name x in
    let rest = total-matched_name p name xs in
    elim (Bool-cases (p name)) [
      | inl kept ↦ let f = rw kept at first in let g = rw kept at rest in rw kept (omega arith)
      | inr cut ↦ let f = rw cut at first in let g = rw cut at rest in rw cut (omega arith)
    ]
