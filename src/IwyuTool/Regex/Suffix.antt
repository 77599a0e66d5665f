-- ===== src/IwyuTool/Regex/Suffix.antt =====
-- The patterns `(.*?)text$`: the group is what stands before the text at the end of the line.
use for_montee.Base.{
  ℕ, ◌==◌, ◌≡◌, ◌≢◌, ◌⊎◌, inl, inr, refl, ap, ◌∙◌, false, List, [], ◌∷◌, ◌++◌, Option, none, some,
  Text, All, length, length-append, arith, Bool-cases,
}
use for_montee.IwyuTool.Regex.{Piece, lit, lazy, end, match, extend}

-- Text of one line.
abbrev pub NoNewline : Text → Type 0
NoNewline = All (λ c. (c == b'\n') ≡ false)

abbrev Decides {κ} : Option (List Text) → Type κ → Type κ
Decides o A = ((o ≡ some []) × A) ⊎ ((o ≡ none) × ¬ A)

match-lit-end : (t s : Text) → NoNewline s → Decides (match (lit t ∷ end ∷ []) s) (s ≡ t)
unfolding match
match-lit-end [] [] h = inl (refl, refl)
match-lit-end [] (c ∷ []) h = inr (rw h.0, λ e. cc)
match-lit-end [] (c ∷ d ∷ s) h = inr (refl, λ e. cc)
match-lit-end (c ∷ t) [] h = inr (refl, λ e. cc)
match-lit-end (c ∷ t) (d ∷ s) h = elim (Bool-cases (c == d)) [
  | inr differ ↦ inr (rw differ, λ e. ground arith)
  | inl same ↦ elim (match-lit-end t s h.1) [
    | inl (found, e) ↦ inl (rw same found, ground arith)
    | inr (missed, ne) ↦ inr (rw same missed, λ e. ne (cc))
  ]
]

abbrev pub ends_in : Text → List Piece
ends_in t = lazy ∷ lit t ∷ end ∷ []

longer-ne : (c : ℕ) (p t : Text) → c ∷ (p ++ t) ≢ t
longer-ne c p t e = let same = ap (length {A = ℕ}) e in omega (arith, same, length-append p t)

lit-end_self : (t : Text) → NoNewline t → match (lit t ∷ end ∷ []) t ≡ some []
lit-end_self t h = elim (match-lit-end t t h) [
  | inl (found, e) ↦ found
  | inr (missed, ne) ↦ absurd (ne refl)
]

match_here : (t : Text) → NoNewline t → match (ends_in t) t ≡ some ([] ∷ [])
match_here [] h = unfold match in refl
match_here (c ∷ t) h = let e = lit-end_self (c ∷ t) h in unfold match in rw e

lit-end_ne : (t s : Text) → NoNewline s → s ≢ t → match (lit t ∷ end ∷ []) s ≡ none
lit-end_ne t s h ne = elim (match-lit-end t s h) [
  | inl (found, e) ↦ absurd (ne e)
  | inr (missed, _) ↦ missed
]

match_later :
    (c : ℕ) (s t : Text)
    → NoNewline (c ∷ s)
    → c ∷ s ≢ t
    → match (ends_in t) (c ∷ s) ≡ extend c (match (ends_in t) s)
match_later c s t h ne = let missed = lit-end_ne t (c ∷ s) h ne in unfold match in rw (missed, h.0)

-- The group of a line that ends in the text is what stands before it.
pub match-ends_in : (p t : Text) → NoNewline (p ++ t) → match (ends_in t) (p ++ t) ≡ some (p ∷ [])
match-ends_in [] t h = match_here t h
match-ends_in (c ∷ p) t h =
    match_later c (p ++ t) t h (longer-ne c p t) ∙ ap (extend c) (match-ends_in p t h.1)

-- A line that does not end in the text does not match.
pub match-ends_in-none :
    (s t : Text) → NoNewline s → ((p : Text) → s ≢ p ++ t) → match (ends_in t) s ≡ none
match-ends_in-none [] t h ne = let missed = lit-end_ne t [] h (ne []) in unfold match in rw missed
match-ends_in-none (c ∷ s) t h ne =
    match_later c s t h (ne [])
    ∙ ap (extend c) (match-ends_in-none s t h.1 (λ p e. ne (c ∷ p) (ap (◌∷◌ c) e)))
