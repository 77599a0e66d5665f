-- ===== src/ClangTidy/Workers/Refinement.antt =====
-- What the threads of tools/run-clang-tidy.py promise: each step that can be seen from outside
-- handles one name of those that are left, in any order.
use for_montee.Base.{
  ℕ, ◌+◌, ◌<◌, ◌≡◌, refl, sym, ap, subst, ◌⊎◌, ◌≤◌, ◌∙◌, ℤ, List, [], ◌∷◌, ◌++◌, Text, text_eq,
  text_eq_iff, text_eq_refl, Bool-cases, inl, inr, arith,
}
use for_montee.ClangTidy.Workers.{
  Ran, exits, Pool, start_pool, Step, put, get, communicate, fail_start, write, fail_decode,
  task_done, Steps, here, more, Joined,
}
use for_montee.ClangTidy.Workers.Totals.{is_name, one, total, total-append, over, unwritten}
use for_montee.ClangTidy.Workers.Balance.{Steps-Balanced, total-snoc}
use for_montee.ClangTidy.Workers.Joining.{Joined-written}

-- The names that are left, and those whose output is written.
pub record Handling : Type 0 where
  pub left : List Text
  pub written : List Text

module _ (run : Text → Ran) where
  -- One of the names is handled, on which the run of clang-tidy raises no exception.
  pub data Handle : Handling → Handling → Type 0 where
    handle :
        (before after written : List Text) (name : Text) (z : ℤ)
        → run name ≡ exits z
        → Handle
            (record { left = before ++ (name ∷ after); written = written })
            (record { left = before ++ after; written = written ++ (name ∷ []) })

  pub data Handles (a : Handling) : Handling → Type 0 where
    none_yet : Handles a a
    next : {b c : Handling} → Handles a b → Handle b c → Handles a c

-- A name that has a weight in the list stands in it.
find_name :
    (name : Text) (xs : List Text)
    → 0 < total (is_name name) xs
    → (before : List Text) × (after : List Text) × (xs ≡ before ++ (name ∷ after))
find_name name [] h = absurd (omega arith)
find_name name (x ∷ xs) h = elim (Bool-cases (text_eq x name)) [
  | inl same ↦ ([], xs, ap (λ y. y ∷ xs) ((text_eq_iff x name).0 same))
  | inr differ ↦
      let (before, after, e) = find_name name xs (let h2 = rw differ at h in omega arith) in
      (x ∷ before, after, ap (◌∷◌ x) e)
]

-- Every name is left or written.
abbrev Splits : List Text → Handling → Type 0
Splits names a = (w : Text → ℕ) → total w a.left + total w a.written ≡ total w names

module _ (max_task : ℤ) (run : Text → Ran) (names : List Text) where
  Step-written :
      (s t : Pool)
      → Step max_task run s t
      → (t.written ≡ s.written)
        ⊎ ((name : Text) × (z : ℤ) × (run name ≡ exits z) × (t.written ≡ s.written ++ (name ∷ [])))
  Step-written _ _ (put s name rest e room) = inl refl
  Step-written _ _ (get s name rest left right q e) = inl refl
  Step-written _ _ (communicate s name left right z e c) = inl refl
  Step-written _ _ (fail_start s name left right e c) = inl refl
  Step-written _ _ (write s name left right z e c) = inr (name, z, c, refl)
  Step-written _ _ (fail_decode s name left right z e c) = inl refl
  Step-written _ _ (task_done s name left right n e u) = inl refl

  -- A name that is written next is among those that are left.
  Handle-next :
      (a : Handling) (name : Text) (z : ℤ) (written : List Text)
      → Splits names a
      → run name ≡ exits z
      → written ≡ a.written ++ (name ∷ [])
      → total (is_name name) written ≤ total (is_name name) names
      → (b : Handling) × Handle run a b × (b.written ≡ written) × Splits names b
  Handle-next a name z written splits c e most =
      let at_name : is_name name name ≡ 1 = rw (text_eq_refl name) refl in
      let added = ap (total (is_name name)) e ∙ total-snoc (is_name name) a.written name in
      let sum = splits (is_name name) in
      let (before, after, found) = find_name name a.left (omega arith) in
      (
        record { left = before ++ after; written = a.written ++ (name ∷ []) },
        subst
            (λ l.
              Handle run (record { left = l; written = a.written })
                (record { left = before ++ after; written = a.written ++ (name ∷ []) }))
            (sym found) (handle before after a.written name z c),
        sym e,
        λ w.
            let all = splits w in
            let all_left = ap (total w) found ∙ total-append w before (name ∷ after) in
            let fewer = total-append w before after in
            let more_written = total-snoc w a.written name in omega arith,
      )

  Steps-Handles :
      (n : ℕ) (s : Pool)
      → Steps max_task run (start_pool max_task names) n s
      → (a : Handling) × Handles run (record { left = names; written = [] }) a
        × (a.written ≡ s.written)
        × Splits names a
  Steps-Handles _ _ here = (record { left = names; written = [] }, none_yet, refl, λ w. omega arith)
  Steps-Handles _ _ (more {n} {t = s} {u = t} before step) =
      let (a, handles, same, splits) = Steps-Handles n s before in
      elim (Step-written s t step) [
        | inl kept ↦ (a, handles, same ∙ sym kept, splits)
        | inr (name, z, c, e) ↦
            let placed =
              (Steps-Balanced max_task run names _ t (more before step)).placed (is_name name) in
            let (b, one_more, written, both) =
              Handle-next a name z t.written splits c (e ∙ ap (λ l. l ++ (name ∷ [])) (sym same))
                (omega arith) in
            (b, next handles one_more, written, both)
      ]

total-nil : (xs : List Text) → total one xs ≡ 0 → xs ≡ []
total-nil [] e = refl
total-nil (x ∷ xs) e = absurd (omega arith)

-- Whatever the number of threads and the order of their steps, what they have done is what a
-- program does that handles one name after the other: the same names are written in the same order,
-- those that it has left are the ones that wait, are in the queue, or are at a thread that has not
-- written them, and it has none left when the join returns.
pub Steps-Handling :
    (max_task : ℤ) (run : Text → Ran) (names : List Text) (n : ℕ) (s : Pool)
    → Steps max_task run (start_pool max_task names) n s
    → (a : Handling) × Handles run (record { left = names; written = [] }) a
      × (a.written ≡ s.written)
      × ((w : Text → ℕ)
          → total w a.left ≡ total w s.waiting + total w s.queue + over (unwritten w) s.workers)
      × (Joined s → a.left ≡ [])
Steps-Handling max_task run names n s path =
    let (a, handles, same, splits) = Steps-Handles max_task run names n s path in
    let placed = (Steps-Balanced max_task run names n s path).placed in
    (
      a,
      handles,
      same,
      λ w.
          let both = splits w in
          let balance = placed w in let written = ap (total w) same in omega arith,
      λ joined.
          let both = splits one in
          let written = ap (total one) same in
          let all = Joined-written max_task run names n s path joined one in
          total-nil a.left (omega arith),
    )
