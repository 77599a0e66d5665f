-- ===== src/IwyuTool/Execute/InTurn.antt =====
-- `execute` with one job, which waits for each process in turn.
use for_montee.Base.{
  ◌+◌, ◌≡◌, refl, ap, sym, ◌∙◌, true, false, List, [], ◌∷◌, ◌++◌, append_assoc, append-nil, inl,
  ◌⊎◌, Bool, Bool-cases, ◌||◌, inr,
}
use for_montee.IwyuTool.Execute.{
  Invocation, Process, Run, Execution, launch_all, trace, report, execute_one, any_fails, startable,
}
use for_montee.IwyuTool.Execute.Rounds.{
  worst_from, outputs, any_raises, any_raises-true, report-cases, reported, raises, processes,
}

module _ (r : Run) where
  -- How a run over these processes ends: no exception is raised, or one of the formatter ends it,
  -- or one of a start.
  abbrev pub Outcome : List Process → Bool → Execution → Type 0
  Outcome ps fails t =
      ((t.raised ≡ false) × (any_raises r false ps ≡ false) × (fails ≡ false))
      ⊎ (((t.raised ≡ true) × (t.start_failed ≡ false) × (any_raises r false ps ≡ true))
          ⊎ ((t.raised ≡ true) × (t.start_failed ≡ true) × (fails ≡ true)))

  pub Outcome-raised :
      (ps : List Process) (fails : Bool) (t : Execution)
      → Outcome ps fails t
      → t.raised ≡ (any_raises r false ps || fails)
  Outcome-raised ps fails t (inl (calm, fine, starts)) = rw (fine, starts) calm
  Outcome-raised ps fails t (inr (inl (raised, same, bad))) = rw bad raised
  Outcome-raised ps fails t (inr (inr (raised, same, bad))) =
      raised ∙ sym (rw bad (or_true (any_raises r false ps)))
    where
      or_true : (b : Bool) → (b || true) ≡ true
      or_true true = refl
      or_true false = refl

  pub Outcome-starts :
      (ps : List Process) (fails : Bool) (t : Execution)
      → Outcome ps fails t
      → t.raised ≡ false
      → fails ≡ false
  Outcome-starts ps fails t (inl (still, fine, starts)) calm = starts
  Outcome-starts ps fails t (inr (inl (raised, same, bad))) calm = cc
  Outcome-starts ps fails t (inr (inr (raised, same, bad))) calm = cc

  -- The state behind the start of an invocation.
  abbrev started : Execution → Invocation → Execution
  started s i = record s { traced = s.traced ++ trace r (i ∷ []); launched = s.launched + 1 }

  module _ (s : Execution) (i : Invocation) (is : List Invocation) where
    execute_one-fails :
        r.starts s.launched i ≡ false
        → execute_one r s (i ∷ is)
          ≡ record s { traced = s.traced ++ trace r (i ∷ []); raised = true; start_failed = true }
    unfolding execute_one
    execute_one-fails h = rw h refl

    execute_one-stops :
        r.starts s.launched i ≡ true
        → report r (started s i) (r.launch s.launched i) ≡ record (started s i) { raised = true }
        → execute_one r s (i ∷ is) ≡ record (started s i) { raised = true }
    unfolding execute_one
    execute_one-stops h e = rw (h, e) refl

    execute_one-cons :
        s.raised ≡ false
        → r.starts s.launched i ≡ true
        → report r (started s i) (r.launch s.launched i)
          ≡ reported r (started s i) (r.launch s.launched i)
        → execute_one r s (i ∷ is)
          ≡ execute_one r (reported r (started s i) (r.launch s.launched i)) is
    unfolding execute_one
    execute_one-cons calm h e = rw (h, e, calm) refl

  -- What one start in front says of how the rest ends.
  Outcome-cons :
      (p : Process) (ps : List Process) (fails : Bool) (t : Execution)
      → raises r p.output ≡ false
      → Outcome ps fails t
      → Outcome (p ∷ ps) fails t
  Outcome-cons p ps fails t fine h = rw fine h

  -- It prints and returns what its processes give, in their order, if no exception ends it.
  pub execute_one_lem :
      (is : List Invocation) (s : Execution)
      → s.raised ≡ false
      → s.start_failed ≡ false
      → Outcome (processes r s.launched is) (any_fails r s.launched is) (execute_one r s is)
        × ((execute_one r s is).raised ≡ false
            → ((execute_one r s is).printed ≡ s.printed ++ outputs r (processes r s.launched is))
              × ((execute_one r s is).exit_code
                  ≡ worst_from s.exit_code (processes r s.launched is)))
  unfolding launch_all any_fails startable
  execute_one_lem [] s calm unfailed =
      unfold execute_one in (inl (calm, refl, refl), λ _. (sym (append-nil s.printed), refl))
  execute_one_lem (i ∷ is) s calm unfailed = elim (Bool-cases (r.starts s.launched i)) [
    | inr fails ↦
        let stops = execute_one-fails s i is fails in
        rw stops (inr (inr (refl, refl, rw fails refl)), λ c. cc)
    | inl starts ↦ elim (report-cases r (started s i) p) [
      | inr (bad, e) ↦
          let stops = execute_one-stops s i is starts e in
          rw stops (
            inr (
                inl (
                  refl,
                  unfailed,
                  rw starts (ap (λ b. any_raises r b later) bad ∙ any_raises-true r later),
                )),
            λ c. cc,
          )
      | inl (fine, e) ↦
          let same = execute_one-cons s i is calm starts e in
          let (ended, done) = execute_one_lem is (reported r (started s i) p) calm unfailed in
          rw (same, starts)
            (
              Outcome-cons p later (any_fails r (s.launched + 1) is)
                  (execute_one r (reported r (started s i) p) is) fine ended,
              λ c. let (printed, code) = done c in (printed ∙ append_assoc s.printed _ _, code),
            )
    ]
  ]
    where
      p : Process
      p = r.launch s.launched i

      later : List Process
      later = processes r (s.launched + 1) is
