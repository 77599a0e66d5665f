-- ===== src/ClangTidy/Main/Names.antt =====
-- clang-tidy ends with 0 on all that is put in the queue exactly when it does on each path of the
-- database that the filter matches.
use mathlib.Core.List.{Perm}
use for_montee.Base.{
  ℕ, ◌+◌, ◌≡◌, ◌↔◌, refl, sym, ◌∙◌, Bool, true, List, [], ◌∷◌, Text, All, Bool-cases, inl, inr,
  arith,
}
use for_montee.ClangTidy.Workers.{Ran}
use for_montee.ClangTidy.Workers.Totals.{total, one, crashing, if_failing}
use for_montee.ClangTidy.Workers.Joining.{Succeeds, weightless-Succeeds}
use for_montee.ClangTidy.Host.{Options, Host}
use for_montee.ClangTidy.Main.{Ready, unique, names, run_of}
use for_montee.ClangTidy.Main.Files.{total-Perm, matched, total-keep, total-unique}

-- Python goes through a set in some order.
abbrev pub IsOrder : (List Text → List Text) → Type 0
IsOrder order = (xs : List Text) → Perm (order xs) xs

-- A weight that is 0 exactly for a name that clang-tidy ends with 0 on.
abbrev bad : (Text → Ran) → Text → ℕ
bad run name = if_failing run one name + crashing run name

bad-Succeeds : (run : Text → Ran) (name : Text) → (bad run name ≡ 0) ↔ Succeeds run name
bad-Succeeds run name = (
  λ e. (weightless-Succeeds run name (run name) refl (omega (arith, e))).0 (omega (arith, e)),
  λ s.
      let fine : crashing run name ≡ 0 = rw (crashing, s) refl in
      let ends = (weightless-Succeeds run name (run name) refl fine).1 s in omega arith,
)

-- The name is not matched by the filter, or clang-tidy ends with 0 on it.
abbrev pub Passes : (Text → Bool) → (Text → Ran) → Text → Type 0
Passes p run name = p name ≡ true → Succeeds run name

matched-Passes :
    (p : Text → Bool) (run : Text → Ran) (name : Text)
    → (matched p (bad run) name ≡ 0) ↔ Passes p run name
matched-Passes p run name = elim (Bool-cases (p name)) [
  | inl kept ↦ rw kept (λ e q. (bad-Succeeds run name).0 e, λ h. (bad-Succeeds run name).1 (h refl))
  | inr cut ↦ rw cut (λ e q. absurd (cc), λ h. refl)
]

-- A sum of weights that stand for a predicate.
total-All :
    (w : Text → ℕ) (P : Text → Type 0) (xs : List Text)
    → ((x : Text) → (w x ≡ 0) ↔ P x)
    → (total w xs ≡ 0) ↔ All P xs
total-All w P [] h = (λ e. tt, λ a. refl)
total-All w P (x ∷ xs) h =
    let (there, back) = total-All w P xs h in
    (
      λ e. ((h x).0 (omega (arith, e)), there (omega (arith, e))),
      λ a. omega (arith, (h x).1 a.0, back a.1),
    )

module _ {D : Type 0} (h : Host D) (o : Options) (fair : IsOrder h.order) where
  -- The weights of what is put in the queue.
  pub total-names :
      (w : Text → ℕ) (r : Ready)
      → total w (names h o r) ≡ total (matched r.file_name_re w) (unique r.files)
  unfolding names
  total-names w r =
      total-keep r.file_name_re w (h.order (unique r.files))
      ∙ total-Perm (matched r.file_name_re w) (fair (unique r.files))

  pub names-Succeeds :
      (r : Ready)
      → All (Succeeds (run_of h o r)) (names h o r)
        ↔ All (Passes r.file_name_re (run_of h o r)) r.files
  names-Succeeds r =
      let run = run_of h o r in
      let w = matched r.file_name_re (bad run) in
      let sum = total-names (bad run) r in
      let (once, often) = total-unique w r.files in
      let (of_names, to_names) =
        total-All (bad run) (Succeeds run) (names h o r) (bad-Succeeds run) in
      let (of_files, to_files) =
        total-All w (Passes r.file_name_re run) r.files (matched-Passes r.file_name_re run) in
      (λ a. of_files (once (sym sum ∙ to_names a)), λ a. of_names (sum ∙ often (to_files a)))
