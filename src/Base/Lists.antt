-- ===== src/Base/Lists.antt =====
-- Lists measured and cut by native numbers, under the library's names.
use Prim.Native.Nat.{ℕ, zero, suc, ◌+◌, ◌≤◌}
use mathlib.Core.Path.{◌≡◌, refl, ap}
use mathlib.Core.Logic.{◌↔◌, ◌⊎◌, inl, inr}
use mathlib.Core.Bool.{Bool, true, false}
use mathlib.Core.List.{List, [], ◌∷◌, ◌++◌}
use native.Mathlib.Omega.{arith}
use for_montee.Base.Bools.{if◌then◌else◌, Bool-cases}

module _ {ℓ} {A : Type ℓ} where
  abbrev pub length : List A → ℕ
  length [] = 0
  length (x ∷ xs) = suc (length xs)

  abbrev pub take : ℕ → List A → List A
  take zero xs = []
  take (suc n) [] = []
  take (suc n) (x ∷ xs) = x ∷ take n xs

  abbrev pub drop : ℕ → List A → List A
  drop zero xs = xs
  drop (suc n) [] = []
  drop (suc n) (x ∷ xs) = drop n xs

  abbrev pub replicate : ℕ → A → List A
  replicate zero a = []
  replicate (suc n) a = a ∷ replicate n a

  -- `[x for x in xs if p(x)]`
  abbrev pub keep : (A → Bool) → List A → List A
  keep p [] = []
  keep p (x ∷ xs) = let rest = keep p xs in if p x then x ∷ rest else rest

  abbrev pub is_empty : List A → Bool
  is_empty [] = true
  is_empty (x ∷ xs) = false

  -- A predicate that holds of each element; it computes to a tuple.
  abbrev pub All {κ} : (A → Type κ) → List A → Type κ
  All P [] = Unit
  All P (x ∷ xs) = P x × All P xs

module _ {ℓ} {A : Type ℓ} where
  pub length-append : (xs ys : List A) → length (xs ++ ys) ≡ length xs + length ys
  length-append [] ys = omega arith
  length-append (x ∷ xs) ys = omega (arith, length-append xs ys)

  pub take-append-drop : (n : ℕ) (xs : List A) → take n xs ++ drop n xs ≡ xs
  take-append-drop zero xs = refl
  take-append-drop (suc n) [] = refl
  take-append-drop (suc n) (x ∷ xs) = ap (◌∷◌ x) (take-append-drop n xs)

  pub length-take-le : (n : ℕ) (xs : List A) → length (take n xs) ≤ n
  length-take-le zero xs = omega arith
  length-take-le (suc n) [] = omega arith
  length-take-le (suc n) (x ∷ xs) = omega (arith, length-take-le n xs)

  pub length-keep-le : (p : A → Bool) (xs : List A) → length (keep p xs) ≤ length xs
  length-keep-le p [] = omega arith
  length-keep-le p (x ∷ xs) = ground (arith, length-keep-le p xs)

  pub All-append {κ} : (P : A → Type κ) (xs ys : List A) → All P xs → All P ys → All P (xs ++ ys)
  All-append P [] ys hx hy = hy
  All-append P (x ∷ xs) ys hx hy = (hx.0, All-append P xs ys hx.1 hy)

  pub drop-length-append : (xs ys : List A) → drop (length xs) (xs ++ ys) ≡ ys
  drop-length-append [] ys = refl
  drop-length-append (x ∷ xs) ys = drop-length-append xs ys

module _ {A : Type 0} where
  -- Membership that computes.
  abbrev pub In : A → List A → Type 0
  In a [] = ⊥
  In a (x ∷ xs) = (x ≡ a) ⊎ In a xs

  pub In-append : (a : A) (xs ys : List A) → In a (xs ++ ys) ↔ (In a xs ⊎ In a ys)
  In-append a [] ys = (inr, elim [ inl m ↦ absurd m | inr m ↦ m ])
  In-append a (x ∷ xs) ys =
      let (split, glue) = In-append a xs ys in
      (
        elim [
          | inl e ↦ inl (inl e)
          | inr m ↦ elim (split m) [ inl l ↦ inl (inr l) | inr r ↦ inr r ]
        ],
        elim [
          | inl (inl e) ↦ inl e
          | inl (inr l) ↦ inr (glue (inl l))
          | inr r ↦ inr (glue (inr r))
        ],
      )

  pub In-keep : (p : A → Bool) (a : A) (xs : List A) → In a (keep p xs) ↔ (In a xs × (p a ≡ true))
  In-keep p a [] = (λ m. absurd m, λ m. absurd m.0)
  In-keep p a (x ∷ xs) = (In-keep_forward (In-keep p a xs).0, In-keep_backward (In-keep p a xs).1)
    where
      In-keep_forward :
          (In a (keep p xs) → In a xs × (p a ≡ true))
          → In a (keep p (x ∷ xs))
          → In a (x ∷ xs) × (p a ≡ true)
      In-keep_forward ih m = elim (Bool-cases (p x)) [
        | inl kept ↦ elim (rw kept at m) [
          | inl e ↦ (inl e, rw (← e) kept)
          | inr l ↦ let (l', q) = ih l in (inr l', q)
        ]
        | inr cut ↦ let (l', q) = ih (rw cut at m) in (inr l', q)
      ]

      In-keep_backward :
          (In a xs × (p a ≡ true) → In a (keep p xs))
          → In a (x ∷ xs) × (p a ≡ true)
          → In a (keep p (x ∷ xs))
      In-keep_backward ih (m, q) = elim m [
        | inl e ↦ let kept : p x ≡ true = rw e q in rw kept (inl e)
        | inr l ↦ elim (Bool-cases (p x)) [
          | inl kept ↦ rw kept (inr (ih (l, q)))
          | inr cut ↦ rw cut (ih (l, q))
        ]
      ]
