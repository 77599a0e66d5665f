-- ===== src/IwyuTool/Main/Exit.antt =====
-- The exit code of `main` of tools/iwyu_tool.py.
use for_montee.Base.{
  true, false, ◌⊎◌, inl, inr, ℕ, ◌≡◌, ◌<◌, ◌↔◌, refl, pos, List, [], ◌∷◌, some, Text, All, subst,
}
use for_montee.IwyuTool.Execute.{
  Run, Execution, IsLawful, Invocation, launch_all, execute, any_fails,
}
use for_montee.IwyuTool.Execute.InTurn.{Outcome}
use for_montee.IwyuTool.Execute.Rounds.{any_raises, processes}
use for_montee.IwyuTool.Execute.Ending.{future}
use for_montee.IwyuTool.Execute.ExitCode.{NotPositive, execute-NotPositive}
use for_montee.IwyuTool.Database.{
  Failure, Entry, ok, System, fixup_compilation_db, slice_compilation_db, from_compile_command,
  invocations_of,
}
use for_montee.IwyuTool.Database.Commands.{value_before, ok_injective}
use for_montee.IwyuTool.Main.{
  Ended, ending, escaped, out_of_fuel, Machine, entries, returned, database_path, prepared, main,
}

-- Each invocation is that of the entry in its place.
abbrev pub Matches : System → Text → List Text → List Entry → List Invocation → Type 0
Matches sys executable extra_args [] [] = Unit
Matches sys executable extra_args [] (i ∷ is) = ⊥
Matches sys executable extra_args (e ∷ es) [] = ⊥
Matches sys executable extra_args (e ∷ es) (i ∷ is) =
    (from_compile_command sys executable e extra_args ≡ ok i)
    × Matches sys executable extra_args es is

pub invocations_of-Matches :
    (sys : System) (executable : Text) (extra_args : List Text) (es : List Entry)
    (is : List Invocation)
    → invocations_of sys executable extra_args es ≡ ok is
    → Matches sys executable extra_args es is
unfolding invocations_of
invocations_of-Matches sys executable extra_args [] [] h = tt
invocations_of-Matches sys executable extra_args [] (i ∷ is) h = cc
invocations_of-Matches sys executable extra_args (e ∷ es) is h =
    let (i, more, one) = value_before _ is (from_compile_command sys executable e extra_args) h in
    let (js, same, others) = value_before _ is (invocations_of sys executable extra_args es) more in
    subst (Matches sys executable extra_args (e ∷ es)) (ok_injective same)
      (one, invocations_of-Matches sys executable extra_args es js others)

-- The processes of these invocations are worked through: the formatter and the starts raise no
-- exception, and the exit code is 0 exactly when no process has a return code above 0; or an
-- exception of the formatter or the `OSError` of a start escapes.
abbrev pub Completes : Run → List Invocation → Ended → Type 0
Completes r is (returned z) =
    (any_raises r false (processes r 0 is) ≡ false)
    × (any_fails r 0 is ≡ false)
    × ((z ≡ pos 0) ↔ All (λ p. NotPositive p.returncode) (launch_all r 0 is))
Completes r is (escaped e) =
    ((e ≡ Failure.attribute_error) × (any_raises r false (processes r 0 is) ≡ true))
    ⊎ ((e ≡ Failure.os_error) × (any_fails r 0 is ≡ true))
Completes r is out_of_fuel = ⊥

Completes-ending :
    (r : Run) (jobs fuel : ℕ) (is : List Invocation)
    → IsLawful r.loads
    → r.jobs ≡ pos jobs
    → 0 < jobs
    → future r 0 is < fuel
    → Completes r is (ending (execute r fuel is))
Completes-ending r jobs fuel is L e p enough =
    let (t, result, ended, zero) = execute-NotPositive r jobs fuel is L e p enough in
    rw result (by_outcome t ended zero)
  where
    by_outcome :
        (t : Execution)
        → Outcome r (processes r 0 is) (any_fails r 0 is) t
        → (t.raised ≡ false
            → (t.exit_code ≡ pos 0) ↔ All (λ p. NotPositive p.returncode) (launch_all r 0 is))
        → Completes r is (ending (some t))
    by_outcome t (inl (calm, fine, starts)) zero = rw calm (fine, starts, zero calm)
    by_outcome t (inr (inl (raised, same, bad))) zero = rw (raised, same) (inl (refl, bad))
    by_outcome t (inr (inr (raised, same, bad))) zero = rw (raised, same) (inr (refl, bad))

-- Where there is an executable, the database is read and no entry raises an exception, the loads
-- are lawful, `--jobs` is at least 1 and there is fuel for the polls, `main` ends. The invocations
-- that it prepares are those of the selected entries of the canonical database, one for each and
-- in their order. It ends for them in one of three ways: an `AttributeError` escapes, and the
-- formatter raises one on the output of some process in front of the first that cannot be started;
-- an `OSError` escapes, and some of the processes cannot be started; or neither is the case, and
-- `main` returns an exit code, which is 0 exactly when none of the processes has a return code
-- above 0.
pub main-Completes :
    (m : Machine) (r : Run) (jobs fuel c : ℕ) (cs path : Text) (source_files extra_args : List Text)
    (db : List Entry) (invocations : List Invocation)
    → m.load (database_path m path) ≡ entries db
    → prepared m (c ∷ cs) source_files extra_args db ≡ ok invocations
    → IsLawful r.loads
    → r.jobs ≡ pos jobs
    → 0 < jobs
    → future r 0 invocations < fuel
    → (fixed : List Entry) × (fixup_compilation_db m.system db ≡ ok fixed)
      × Matches m.system
          (c ∷ cs)
          extra_args
          (slice_compilation_db m.system fixed source_files).new_db
          invocations
      × Completes r invocations (main m r fuel (some (c ∷ cs)) path source_files extra_args)
unfolding main prepared
main-Completes m r jobs fuel c cs path source_files extra_args db is read ready L e p enough =
    let (fixed, rest, fix) = value_before _ is (fixup_compilation_db m.system db) ready in
    (
      fixed,
      fix,
      invocations_of-Matches m.system (c ∷ cs) extra_args _ is rest,
      rw (main, read, ready) (Completes-ending r jobs fuel is L e p enough),
    )
