-- ===== src/ClangTidy/Workers/Totals.antt =====
-- Sums of weights over names and over workers.
use for_montee.Base.{
  text_eq, ℕ, zero, suc, ◌+◌, ◌≡◌, ◌≤◌, none, some, refl, ap, ◌∙◌, List, [], ◌∷◌, ◌++◌, replicate,
  Text, if◌then◌else◌, arith,
}
use for_montee.ClangTidy.Workers.{
  Phase, idle, running, ended, printed, unstarted, undecoded, fails, Ran, exits, not_started,
  not_text, returncode,
}

abbrev pub total : (Text → ℕ) → List Text → ℕ
total w [] = 0
total w (x ∷ xs) = w x + total w xs

pub total-append : (w : Text → ℕ) (xs ys : List Text) → total w (xs ++ ys) ≡ total w xs + total w ys
total-append w [] ys = omega arith
total-append w (x ∷ xs) ys = let ih = total-append w xs ys in omega arith

-- The weight of the phases of all workers.
abbrev pub over : (Phase → ℕ) → List Phase → ℕ
over f [] = 0
over f (p ∷ ps) = f p + over f ps

over-append : (f : Phase → ℕ) (ps qs : List Phase) → over f (ps ++ qs) ≡ over f ps + over f qs
over-append f [] qs = omega arith
over-append f (p ∷ ps) qs = let ih = over-append f ps qs in omega arith

-- One worker among the others.
over-middle :
    (f : Phase → ℕ) (left right : List Phase) (p : Phase)
    → over f (left ++ (p ∷ right)) ≡ over f left + over f right + f p
over-middle f left right p = let e = over-append f left (p ∷ right) in omega arith

-- A worker goes from one phase to the next.
pub over-moved :
    (f : Phase → ℕ) (workers left right : List Phase) (p q : Phase)
    → workers ≡ left ++ (p ∷ right)
    → over f (left ++ (q ∷ right)) + f p ≡ over f workers + f q
over-moved f workers left right p q e =
    let before = ap (over f) e ∙ over-middle f left right p in
    let after = over-middle f left right q in omega arith

pub over-replicate : (f : Phase → ℕ) (n : ℕ) → f idle ≡ 0 → over f (replicate n idle) ≡ 0
over-replicate f zero h = refl
over-replicate f (suc n) h = let ih = over-replicate f n h in omega arith

-- A worker has a name that it has not written.
abbrev pub unwritten : (Text → ℕ) → Phase → ℕ
unwritten w idle = 0
unwritten w (running name) = w name
unwritten w (ended name) = w name
unwritten w (printed name) = 0
unwritten w (unstarted name) = w name
unwritten w (undecoded name) = w name

-- A worker has noted the end of a name that it has not written.
abbrev pub noted : (Text → ℕ) → Phase → ℕ
noted w idle = 0
noted w (running name) = 0
noted w (ended name) = w name
noted w (printed name) = 0
noted w (unstarted name) = 0
noted w (undecoded name) = w name

abbrev pub is_busy : Phase → ℕ
is_busy idle = 0
is_busy _ = 1

-- A thread that an exception has ended.
abbrev pub dead : (Text → ℕ) → Phase → ℕ
dead w (unstarted name) = w name
dead w (undecoded name) = w name
dead w _ = 0

-- The weight of a name that clang-tidy fails on.
abbrev pub if_failing : (Text → Ran) → (Text → ℕ) → Text → ℕ
if_failing run w name = elim (returncode (run name)) [
  | none ↦ 0
  | some z ↦ if fails z then w name else 0
]

abbrev pub one : Text → ℕ
one name = 1

-- The weight 1 of one name.
abbrev pub is_name : Text → Text → ℕ
is_name name x = if text_eq x name then 1 else 0

-- The weight of a name whose run raises an exception.
abbrev pub crashing : (Text → Ran) → Text → ℕ
crashing run name = elim (run name) [ exits z ↦ 0 | not_started ↦ 1 | not_text z ↦ 1 ]

pub over-le :
    (f g : Phase → ℕ) (ps : List Phase) → ((p : Phase) → f p ≤ g p) → over f ps ≤ over g ps
over-le f g [] h = omega arith
over-le f g (p ∷ ps) h = let first = h p in let ih = over-le f g ps h in omega arith
