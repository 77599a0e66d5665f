-- ===== src/ClangTidy/Main/Success.antt =====
-- When tools/run-clang-tidy.py ends with 0, and what it has run then.
use for_montee.Base.{
  ℕ, ◌≡◌, ◌↔◌, refl, sym, ap, subst, ◌∙◌, Bool, true, false, ◌&&◌, Option, none, some, Text,
  contains, All, Bool-cases, inl, inr, if◌then◌else◌, arith,
}
use for_montee.ClangTidy.Workers.{Pool, start_pool, Steps, Joined}
use for_montee.ClangTidy.Workers.Totals.{total, is_name}
use for_montee.ClangTidy.Workers.Joining.{Joined-written}
use for_montee.ClangTidy.Fixes.{exit_code}
use for_montee.ClangTidy.Fixes.ExitCode.{IsFine, exit_code-Succeeds}
use for_montee.ClangTidy.Host.{Options, Host, Ending, Stage, reached, ended, Temporary}
use for_montee.ClangTidy.Main.{
  Ready, unique, prepare, names, run_of, export_all, fix_all, leave, finish, Runs, stops, finishes,
}
use for_montee.ClangTidy.Main.Files.{total-matched_name, total-unique_once}
use for_montee.ClangTidy.Main.Names.{IsOrder, Passes, total-names, names-Succeeds}
use for_montee.ClangTidy.Main.Stops.{Fails, prepare-Fails}

abbrev ready_of : Ready → Stage Ready → Ready
ready_of r (reached s) = s
ready_of r s = r

module _ {D : Type 0} (h : Host D) (o : Options) where
  -- The directory for the fixes is removed, where there is one.
  abbrev pub Removed : Option Temporary → Type 0
  Removed none = Unit
  Removed (some t) = h.rmtree t.tmpdir ≡ true

  leave-zero :
      (t : Option Temporary) (code : ℕ) → ((leave h o t code).status ≡ 0) ↔ ((code ≡ 0) × Removed t)
  leave-zero none code = (λ e. (e, tt), λ x. x.0)
  leave-zero (some t) code = elim (Bool-cases (h.rmtree t.tmpdir)) [
    | inl gone ↦ rw gone (λ e. (e, refl), λ x. x.0)
    | inr kept ↦ rw kept (λ e. absurd (omega arith), λ x. absurd (cc))
  ]

  -- What the threads, the exporting and applying of the fixes and the removal of the directory come
  -- to.
  abbrev pub Passed : Ready → Type 0
  Passed r =
      All (Passes r.file_name_re (run_of h o r)) r.files
      × IsFine (export_all h o r.temporary)
      × IsFine (fix_all h o r.temporary)
      × Removed r.temporary

  -- What the program promises with an exit code of 0.
  abbrev pub Success : Type 0
  Success = (r : Ready) × (prepare h o ≡ reached r) × Passed r

  stops-Success : (e : Ending) → prepare h o ≡ ended e → (e.status ≡ 0) ↔ Success
  stops-Success e p =
      let one : e.status ≡ 1 = subst Fails p (prepare-Fails h o) in
      (λ z. absurd (omega arith), λ (r, q, passed). absurd (cc))

  finishes-Success :
      (fair : IsOrder h.order) (r : Ready) (n : ℕ) (s : Pool)
      → prepare h o ≡ reached r
      → Steps r.max_task (run_of h o r) (start_pool r.max_task (names h o r)) n s
      → Joined s
      → ((finish h o r s).status ≡ 0) ↔ Success
  unfolding finish
  finishes-Success fair r n s p path joined =
      let exporting = export_all h o r.temporary in
      let fixing = fix_all h o r.temporary in
      let (left, left_back) = leave-zero r.temporary (exit_code exporting fixing s) in
      let (code, code_back) =
        exit_code-Succeeds r.max_task (run_of h o r) (names h o r) n s exporting fixing path
          joined in
      let (of_names, of_files) = names-Succeeds h o fair r in
      (
        λ z.
            let (zero_code, removed) = left z in
            let (all, exported, fixed) = code zero_code in
            (r, p, (of_names all, exported, fixed, removed)),
        λ (r', q, passed).
            let (all, exported, fixed, removed) =
              subst Passed (ap (ready_of r) (sym q ∙ p)) passed in
            left_back (code_back (of_files all, exported, fixed), removed),
      )

-- However tools/run-clang-tidy.py comes to its end, its status is 0 exactly when it got ready,
-- clang-tidy ended with 0 on each path of the database that the filter matches, neither exporting
-- nor applying the fixes raised an exception, and the temporary directory could be removed. Python
-- goes through a set in some order.
pub main-Success :
    {D : Type 0} (h : Host D) (o : Options) (e : Ending)
    → IsOrder h.order
    → Runs h o e
    → (e.status ≡ 0) ↔ Success h o
main-Success h o _ fair (stops e p) = stops-Success h o e p
main-Success h o _ fair (finishes r n s p path joined) =
    finishes-Success h o fair r n s p path joined

both_once :
    (b c : Bool) {n : ℕ}
    → n ≡ (if c then 1 else 0)
    → (if b then n else 0) ≡ (if b && c then 1 else 0)
both_once true c e = e
both_once false c e = refl

-- When the join returns, clang-tidy has been run exactly once on a path that the database has, once
-- or more often, and that the filter matches, and on nothing else.
pub main-Once :
    {D : Type 0} (h : Host D) (o : Options) (r : Ready) (n : ℕ) (s : Pool) (name : Text)
    → IsOrder h.order
    → Steps r.max_task (run_of h o r) (start_pool r.max_task (names h o r)) n s
    → Joined s
    → total (is_name name) s.written
      ≡ (if r.file_name_re name && contains r.files name then 1 else 0)
main-Once h o r n s name fair path joined =
    Joined-written r.max_task (run_of h o r) (names h o r) n s path joined (is_name name)
    ∙ total-names h o fair (is_name name) r
    ∙ total-matched_name r.file_name_re name (unique r.files)
    ∙ both_once (r.file_name_re name) (contains r.files name) (total-unique_once name r.files)
