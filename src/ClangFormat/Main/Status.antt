-- ===== src/ClangFormat/Main/Status.antt =====
-- The exit status of `main`.
use mathlib.Core.Logic.{∥∥₁_elim}
use mathlib.Core.List.{Perm, Permᴰ}
use for_montee.Base.{
  ◌≡◌, ◌≢◌, ◌↔◌, refl, ap, sym, ◌∙◌, true, false, List, [], ◌∷◌, All, Bool-cases, inl, inr, arith,
}
use for_montee.ClangFormat.Trouble.{Printing}
use for_montee.ClangFormat.Diff.{Outcome, done, diff_error, unexpected_error}
use for_montee.ClangFormat.Diff.Formatted.{IsQuiet}
use for_montee.ClangFormat.Main.{
  ExitStatus, success, diff, trouble, Loop, initial, on_result, consume,
}

-- The status that one file alone asks for.
abbrev pub status_of : Outcome → ExitStatus
status_of (done [] errs) = success
status_of (done (l ∷ ls) errs) = diff
status_of (diff_error m errs) = trouble
status_of (unexpected_error file m) = trouble

-- The graver of two.
abbrev pub graver : ExitStatus → ExitStatus → ExitStatus
graver success b = b
graver diff trouble = trouble
graver diff b = diff
graver trouble b = trouble

abbrev pub gravest : ExitStatus → List Outcome → ExitStatus
gravest r [] = r
gravest r (o ∷ os) = gravest (graver r (status_of o)) os

gravest_trouble : (os : List Outcome) → gravest trouble os ≡ trouble
gravest_trouble [] = refl
gravest_trouble (o ∷ os) = gravest_trouble os

module _ (p : Printing) where
  on_result-graver :
      (s : Loop) (o : Outcome) → (on_result p s o).retcode ≡ graver s.retcode (status_of o)
  unfolding on_result
  on_result-graver s o = ground arith

  breaks-trouble :
      (s : Loop) (o : Outcome) (r : ExitStatus)
      → s.terminated ≡ false
      → (on_result p s o).terminated ≡ true
      → graver r (status_of o) ≡ trouble
  unfolding on_result
  breaks-trouble s (done [] errs) r h b = cc
  breaks-trouble s (done (l ∷ ls) errs) r h b = cc
  breaks-trouble s (diff_error m errs) r h b = cc
  breaks-trouble s (unexpected_error file m) success h b = refl
  breaks-trouble s (unexpected_error file m) diff h b = refl
  breaks-trouble s (unexpected_error file m) trouble h b = refl

  -- The exit status is the gravest that the files ask for, unexpected errors and the files that are
  -- not looked at behind them included.
  pub consume-gravest :
      (os : List Outcome) (s : Loop)
      → s.terminated ≡ false
      → (consume p s os).retcode ≡ gravest s.retcode os
  unfolding consume
  consume-gravest [] s h = refl
  consume-gravest (o ∷ os) s h = elim (Bool-cases (on_result p s o).terminated) [
    | inl broken ↦ rw broken (
        let bad = breaks-trouble s o s.retcode h broken in
        on_result-graver s o ∙ bad ∙ sym (gravest_trouble os) ∙ ap (λ r. gravest r os) (sym bad))
    | inr goes_on ↦ rw goes_on (
        consume-gravest os (on_result p s o) goes_on
        ∙ ap (λ r. gravest r os) (on_result-graver s o))
  ]

graver_comm_right : (a b c : ExitStatus) → graver (graver a b) c ≡ graver (graver a c) b
graver_comm_right a b c = ground arith

ExitStatus-set : IsSet ExitStatus
ExitStatus-set = hlevel

gravest-permᴰ : (r : ExitStatus) {os ps : List Outcome} → Permᴰ os ps → gravest r os ≡ gravest r ps
gravest-permᴰ r Permᴰ.nil = refl
gravest-permᴰ r (Permᴰ.cons {a} {b} {l₂} e p) =
    gravest-permᴰ (graver r (status_of a)) p ∙ ap (λ o. gravest (graver r (status_of o)) l₂) e
gravest-permᴰ r (Permᴰ.swap {a} {b} {a'} {b'} {l} e f) =
    ap (λ y. gravest y l) (graver_comm_right r (status_of a) (status_of b))
    ∙ ap (λ o. gravest (graver (graver r (status_of o)) (status_of a)) l) f
    ∙ ap (λ o. gravest (graver (graver r (status_of a')) (status_of o)) l) e
gravest-permᴰ r (Permᴰ.trans p q) = gravest-permᴰ r p ∙ gravest-permᴰ r q

-- The order of the results does not change the gravest status.
pub gravest-perm :
    (r : ExitStatus) {os ps : List Outcome} → Perm os ps → gravest r os ≡ gravest r ps
gravest-perm r p = ∥∥₁_elim p (ExitStatus-set _ _) (gravest-permᴰ r)

-- The results of the files in two orders give the same exit status, although the loop stops at the
-- first unexpected error that it meets.
pub consume-perm :
    (p : Printing) (os ps : List Outcome)
    → Perm os ps
    → (consume p initial os).retcode ≡ (consume p initial ps).retcode
consume-perm p os ps same =
    consume-gravest p os initial refl
    ∙ gravest-perm success same
    ∙ sym (consume-gravest p ps initial refl)

gravest-trouble : (os : List Outcome) → gravest trouble os ≢ success
gravest-trouble os = rw (gravest_trouble os) cc

gravest-diff : (os : List Outcome) → gravest diff os ≢ success
gravest-diff [] = cc
gravest-diff (done [] errs ∷ os) = gravest-diff os
gravest-diff (done (l ∷ ls) errs ∷ os) = gravest-diff os
gravest-diff (diff_error m errs ∷ os) = gravest-trouble os
gravest-diff (unexpected_error file m ∷ os) = gravest-trouble os

pub gravest-IsQuiet : (os : List Outcome) → (gravest success os ≡ success) ↔ All IsQuiet os
gravest-IsQuiet [] = (λ e. tt, λ a. refl)
gravest-IsQuiet (done [] errs ∷ os) =
    let (there, back) = gravest-IsQuiet os in (λ e. (tt, there e), λ a. back a.1)
gravest-IsQuiet (done (l ∷ ls) errs ∷ os) = (λ e. absurd (gravest-diff os e), λ a. absurd a.0)
gravest-IsQuiet (diff_error m errs ∷ os) = (λ e. absurd (gravest-trouble os e), λ a. absurd a.0)
gravest-IsQuiet (unexpected_error file m ∷ os) =
    (λ e. absurd (gravest-trouble os e), λ a. absurd a.0)
