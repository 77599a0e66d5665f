-- ===== src/Base/Folds.antt =====
-- A loop that updates one variable for each element, and what does not depend on their order.
use mathlib.Core.Path.{◌≡◌, refl, ap, subst, sym, ◌∙◌}
use for_montee.Base.Lists.{All}
use mathlib.Core.Logic.{∥∥₁_elim}
use mathlib.Core.List.{List, [], ◌∷◌, ◌++◌, map, Perm, Permᴰ}

abbrev pub fold {ℓ κ} : {A : Type ℓ} {B : Type κ} → (B → A → B) → B → List A → B
fold f b [] = b
fold f b (x ∷ xs) = fold f (f b x) xs

pub fold-append {ℓ κ} :
    {A : Type ℓ} {B : Type κ} (f : B → A → B) (b : B) (xs ys : List A)
    → fold f b (xs ++ ys) ≡ fold f (fold f b xs) ys
fold-append f b [] ys = refl
fold-append f b (x ∷ xs) ys = fold-append f (f b x) xs ys

pub fold-map {ℓ κ ι} :
    {A : Type ℓ} {B : Type κ} {C : Type ι} (f : B → C → B) (g : A → C) (b : B) (xs : List A)
    → fold f b (map g xs) ≡ fold (λ b x. f b (g x)) b xs
fold-map f g b [] = refl
fold-map f g b (x ∷ xs) = fold-map f g (f b (g x)) xs

module _ {A B : Type 0} (f : B → A → B) (right_comm : (b : B) (x y : A) → f (f b x) y ≡ f (f b y) x)
    (B_set : IsSet B) where
  fold-permᴰ : (z : B) {xs ys : List A} → Permᴰ xs ys → fold f z xs ≡ fold f z ys
  fold-permᴰ z Permᴰ.nil = refl
  fold-permᴰ z (Permᴰ.cons {a} {b} {l₂} e p) = fold-permᴰ (f z a) p ∙ ap (λ x. fold f (f z x) l₂) e
  fold-permᴰ z (Permᴰ.swap {a} {b} {a'} {b'} {l} e g) =
      ap (λ x. fold f x l) (right_comm z a b)
      ∙ ap (λ x. fold f (f (f z x) a) l) g
      ∙ ap (λ x. fold f (f (f z a') x) l) e
  fold-permᴰ z (Permᴰ.trans p q) = fold-permᴰ z p ∙ fold-permᴰ z q

  -- The order of the elements does not count where two updates can be exchanged.
  pub fold-perm : (z : B) {xs ys : List A} → Perm xs ys → fold f z xs ≡ fold f z ys
  fold-perm z p = ∥∥₁_elim p (B_set _ _) (fold-permᴰ z)

module _ {A : Type 0} (P : A → Type 0) (P_prop : (a : A) → IsProp (P a)) where
  pub All-prop : (xs : List A) → IsProp (All P xs)
  All-prop [] x y = refl
  All-prop (a ∷ xs) x y = λ i. (P_prop a x.0 y.0 i, All-prop xs x.1 y.1 i)

  All-permᴰ : {xs ys : List A} → Permᴰ xs ys → All P ys → All P xs
  All-permᴰ Permᴰ.nil h = h
  All-permᴰ (Permᴰ.cons {a} {b} {l₂} e p) h = (subst P (sym e) h.0, All-permᴰ p h.1)
  All-permᴰ (Permᴰ.swap {a} {b} {a'} {b'} {l} e g) h =
      (subst P (sym e) h.1.0, (subst P (sym g) h.0, h.1.1))
  All-permᴰ (Permᴰ.trans p q) h = All-permᴰ p (All-permᴰ q h)

  -- What holds of each element does so in any order.
  pub All-perm : {xs ys : List A} → Perm xs ys → All P ys → All P xs
  All-perm {xs} {ys} p h = ∥∥₁_elim p (All-prop xs) (λ q. All-permᴰ q h)
