-- ===== src/ClangTidy/Locate/Nearest.antt =====
-- Which directory `find_compilation_database` gives, and that it ends.
use for_montee.Base.{
  ℕ, zero, suc, ◌==◌, ◌<◌, ◌≡◌, ◌⊎◌, inl, inr, refl, ap, sym, ◌∙◌, Bool, true, false, [], ◌∷◌, some,
  Text, codes, text_eq, text_eq_iff, length, path_join, dirname, through_last, rstrip, Bool-cases,
  if◌then◌else◌, arith,
}
use for_montee.ClangTidy.Locate.{Located, located, exited, find_from, find_compilation_database}

-- The first text is the second, or it is shorter.
abbrev Shorter : Text → Text → Type 0
Shorter t s = (t ≡ s) ⊎ (length t < length s)

Shorter-trans : (r s t : Text) → Shorter r s → Shorter s t → Shorter r t
Shorter-trans r s t (inl e) (inl f) = inl (e ∙ f)
Shorter-trans r s t (inl e) (inr l) = let m = ap length e in inr (omega arith)
Shorter-trans r s t (inr l) (inl f) = let m = ap length f in inr (omega arith)
Shorter-trans r s t (inr l) (inr m) = inr (omega arith)

Shorter-cons : (c : ℕ) (t s : Text) → Shorter t s → Shorter (c ∷ t) (c ∷ s)
Shorter-cons c t s (inl e) = inl (ap (◌∷◌ c) e)
Shorter-cons c t s (inr l) = inr (omega arith)

Shorter-short : (c : ℕ) (b : Bool) (s : Text) → Shorter (if b then c ∷ [] else []) (c ∷ s)
Shorter-short c true [] = inl refl
Shorter-short c true (d ∷ s) = inr (omega arith)
Shorter-short c false s = inr (omega arith)

Shorter-all : (c : ℕ) (b : Bool) (s : Text) → Shorter (if b then [] else c ∷ []) (c ∷ s)
Shorter-all c true s = inr (omega arith)
Shorter-all c false [] = inl refl
Shorter-all c false (d ∷ s) = inr (omega arith)

through_last-Shorter : (c : ℕ) (s : Text) → Shorter (through_last c s) s
unfolding through_last
through_last-Shorter c [] = inl refl
through_last-Shorter c (d ∷ s) = by_rest (through_last c s) (through_last-Shorter c s)
  where
    by_rest :
        (t : Text)
        → Shorter t s
        → Shorter (elim t [ [] ↦ if d == c then d ∷ [] else [] | e ∷ u ↦ d ∷ e ∷ u ]) (d ∷ s)
    by_rest [] h = Shorter-short d (d == c) s
    by_rest (e ∷ u) h = Shorter-cons d (e ∷ u) s h

rstrip-Shorter : (c : ℕ) (s : Text) → Shorter (rstrip c s) s
unfolding rstrip
rstrip-Shorter c [] = inl refl
rstrip-Shorter c (d ∷ s) = by_rest (rstrip c s) (rstrip-Shorter c s)
  where
    by_rest :
        (t : Text)
        → Shorter t s
        → Shorter (elim t [ [] ↦ if d == c then [] else d ∷ [] | e ∷ u ↦ d ∷ e ∷ u ]) (d ∷ s)
    by_rest [] h = Shorter-all d (d == c) s
    by_rest (e ∷ u) h = Shorter-cons d (e ∷ u) s h

if-Shorter : (b : Bool) (t u s : Text) → Shorter t s → Shorter u s → Shorter (if b then t else u) s
if-Shorter true t u s h k = h
if-Shorter false t u s h k = k

dirname-Shorter : (p : Text) → Shorter (dirname p) p
unfolding dirname
dirname-Shorter p =
    let head = through_last b'/' p in
    let cut = through_last-Shorter b'/' p in
    if-Shorter _ head (rstrip b'/' head) p cut
      (Shorter-trans (rstrip b'/' head) head p (rstrip-Shorter b'/' head) cut)

-- The n-th parent.
abbrev pub climb : ℕ → Text → Text
climb zero p = p
climb (suc n) p = climb n (dirname p)

climb_top : (n : ℕ) (p : Text) → dirname p ≡ p → climb n p ≡ p
climb_top zero p e = refl
climb_top (suc n) p e = climb_top n (dirname p) (ap dirname e) ∙ e

module _ (isfile : Text → Bool) (path : Text) where
  abbrev pub HasFile : Text → Bool → Type 0
  HasFile directory b = isfile (path_join directory path) ≡ b

  -- The nearest directory above that has the file; the program ends where there is none.
  abbrev pub Nearest : Text → Located → Type 0
  Nearest start (located d) =
      (n : ℕ) × (d ≡ climb n start)
      × HasFile d true
      × ((k : ℕ) → k < n → HasFile (climb k start) false)
  Nearest start exited = (k : ℕ) → HasFile (climb k start) false

  Nearest-parent :
      (start : Text) (l : Located)
      → HasFile start false
      → Nearest (dirname start) l
      → Nearest start l
  Nearest-parent start (located d) h (n, e, has, before) = (suc n, e, has, earlier)
    where
      earlier : (k : ℕ) → k < suc n → HasFile (climb k start) false
      earlier zero l = h
      earlier (suc k) l = before k (omega arith)
  Nearest-parent start exited h none_above = every
    where
      every : (k : ℕ) → HasFile (climb k start) false
      every zero = h
      every (suc k) = none_above k

  find_from-Nearest :
      (fuel : ℕ) (start : Text)
      → length start < fuel
      → (l : Located) × (find_from isfile path fuel start ≡ some l) × Nearest start l
  unfolding find_from
  find_from-Nearest zero start h = absurd (omega arith)
  find_from-Nearest (suc fuel) start h = elim (Bool-cases (isfile (path_join start path))) [
    | inl has ↦ (located start, rw has, (0, refl, has, λ k l. absurd (omega arith)))
    | inr lacks ↦ elim (Bool-cases (text_eq start (dirname start))) [
      | inl same ↦
          let top = sym ((text_eq_iff start (dirname start)).0 same) in
          (
            exited,
            rw (lacks, same),
            λ k. ap (λ d. isfile (path_join d path)) (climb_top k start top) ∙ lacks,
          )
      | inr differ ↦ elim (dirname-Shorter start) [
        | inl top ↦ cc ((text_eq_iff start (dirname start)).1 (sym top))
        | inr less ↦
            let (l, e, nearest) = find_from-Nearest fuel (dirname start) (omega arith) in
            (l, rw (lacks, differ) e, Nearest-parent start l lacks nearest)
      ]
    ]
  ]

-- With fuel above the length of the working directory's path, the search ends: with the nearest
-- directory on the way up that has the file, or with the program's end where none has it.
pub find_compilation_database-Nearest :
    (isfile : Text → Bool) (realpath : Text → Text) (fuel : ℕ) (path : Text)
    → length (realpath (codes "./")) < fuel
    → (l : Located) × (find_compilation_database isfile realpath fuel path ≡ some l)
      × Nearest isfile path (realpath (codes "./")) l
unfolding find_compilation_database
find_compilation_database-Nearest isfile realpath fuel path h =
    find_from-Nearest isfile path fuel (realpath (codes "./")) h
