-- ===== src/IwyuTool/Execute/Rounds.antt =====
-- One round of `execute` in closed form.
use for_montee.Base.{
  ℕ, suc, ◌+◌, ◌≤◌, arith, ◌≡◌, refl, ap, sym, ◌∙◌, ℤ, pos, max_ℤ, List, [], ◌∷◌, ◌++◌, append-nil,
  append_assoc, Text, Bool, true, false, ◌||◌, none, some, Option-cases, ◌⊎◌, inl, inr, fold,
  Bool-cases, if◌then◌else◌, length, length-append, take, drop, map,
}
use for_montee.IwyuTool.Execute.{
  Invocation, Process, Run, Execution, complete, running, capacity, collect, report, launch_all,
  trace, one_round, any_fails, startable, schedule,
}

-- The exit code after processes with these return codes.
abbrev pub worst_from : ℤ → List Process → ℤ
worst_from = fold (λ z p. max_ℤ z p.returncode)

module _ (r : Run) where
  -- What is printed of an output; nothing where the formatter raises an exception.
  abbrev pub shown : Text → Text
  shown output = elim (r.formatter output) [ none ↦ [] | some text ↦ text ]

  abbrev pub raises : Text → Bool
  raises output = elim (r.formatter output) [ none ↦ true | some text ↦ false ]

  abbrev pub outputs : List Process → List Text
  outputs = map (λ p. shown p.output)

  -- The formatter raises an exception on one of the outputs.
  abbrev pub any_raises : Bool → List Process → Bool
  any_raises = fold (λ b p. b || raises p.output)

  abbrev pub reported : Execution → Process → Execution
  reported s p = record s {
    exit_code = max_ℤ s.exit_code p.returncode;
    printed = s.printed ++ (shown p.output ∷ []);
  }

  pub report-cases :
      (s : Execution) (p : Process)
      → ((raises p.output ≡ false) × (report r s p ≡ reported s p))
        ⊎ ((raises p.output ≡ true) × (report r s p ≡ record s { raised = true }))
  unfolding report
  report-cases s p = elim (Option-cases (r.formatter p.output)) [
    | inl e ↦ inr (rw (raises, e) refl, rw (report, e) refl)
    | inr (text, e) ↦ inl (rw (raises, e) refl, rw (report, shown, e) refl)
  ]

  pub any_raises-true : (ps : List Process) → any_raises true ps ≡ true
  any_raises-true [] = refl
  any_raises-true (p ∷ ps) = any_raises-true ps

  -- What the loop over completed processes comes to, if the formatter raises on none of them.
  abbrev collected : Execution → List Process → Execution
  collected s ps = record s {
    exit_code = worst_from s.exit_code ps;
    printed = s.printed ++ outputs ps;
  }

  collected-cons :
      (s : Execution) (p : Process) (ps : List Process)
      → collected (reported s p) ps ≡ collected s (p ∷ ps)
  collected-cons s p ps =
      ap (λ l. record s { exit_code = worst_from s.exit_code (p ∷ ps); printed = l })
        (append_assoc s.printed _ _)

  collect-cons :
      (s : Execution) (p : Process) (ps : List Process)
      → s.raised ≡ false
      → raises p.output ≡ false
      → report r s p ≡ reported s p
      → collect r s (p ∷ ps) ≡ collect r (reported s p) ps
  unfolding collect
  collect-cons s p ps calm fine e = rw (e, calm) refl

  pub collect_cases :
      (ps : List Process) (s : Execution)
      → s.raised ≡ false
      → ((any_raises false ps ≡ false) × (collect r s ps ≡ collected s ps))
        ⊎ ((any_raises false ps ≡ true) × ((collect r s ps).raised ≡ true))
  unfolding collect
  collect_cases [] s calm =
      inl (refl, ap (λ l. record s { printed = l }) (sym (append-nil s.printed)))
  collect_cases (p ∷ ps) s calm = elim (report-cases s p) [
    | inr (bad, e) ↦ inr (rw bad (any_raises-true ps), rw e refl)
    | inl (fine, e) ↦ elim (collect_cases ps (reported s p) calm) [
      | inl (none_raises, same) ↦
          inl (rw fine none_raises, collect-cons s p ps calm fine e ∙ same ∙ collected-cons s p ps)
      | inr (one_raises, raised) ↦
          inr (rw fine one_raises, ap (λ t. t.raised) (collect-cons s p ps calm fine e) ∙ raised)
    ]
  ]

  pub length-launch_all : (is : List Invocation) (n : ℕ) → length (launch_all r n is) ≡ length is
  unfolding launch_all
  length-launch_all [] n = refl
  length-launch_all (i ∷ is) n = ap suc (length-launch_all is (n + 1))

  -- What a round comes to that starts `k` processes.
  abbrev pub round_of : Execution → ℕ → Execution
  round_of s k = record s {
    exit_code = worst_from s.exit_code (complete s.pending);
    printed = s.printed ++ outputs (complete s.pending);
    pending = running s.pending ++ launch_all r s.launched (take k s.invocations);
    invocations = drop k s.invocations;
    traced = s.traced ++ trace r (take k s.invocations);
    launched = s.launched + length (take k s.invocations);
    round = s.round + 1;
  }

  -- The loop over completed processes leaves `pending` to what follows it.
  collect-pending : (ps : List Process) (s : Execution) → (collect r s ps).pending ≡ s.pending
  unfolding collect
  collect-pending [] s = refl
  collect-pending (p ∷ ps) s =
      by_flag (report r s p).raised (collect-pending ps (report r s p)) (elim (report-cases s p) [
        | inl (fine, e) ↦ ap (λ t. t.pending) e
        | inr (bad, e) ↦ ap (λ t. t.pending) e
      ])
    where
      by_flag :
          (b : Bool)
          → (collect r (report r s p) ps).pending ≡ (report r s p).pending
          → (report r s p).pending ≡ s.pending
          → (if b then report r s p else collect r (report r s p) ps).pending ≡ s.pending
      by_flag true h e = e
      by_flag false h e = h ∙ e

  collect-calm :
      (ps : List Process) (s : Execution) → (collect r s ps).raised ≡ false → s.raised ≡ false
  unfolding collect report
  collect-calm [] s h = h
  collect-calm (p ∷ ps) s h = elim (report-cases s p) [
    | inr (bad, e) ↦ cc (rw e at h)
    | inl (fine, e) ↦ elim (Bool-cases s.raised) [
      | inr calm ↦ calm
      | inl raised ↦ cc (raised, rw (e, raised) at h)
    ]
  ]

  pub one_round-raised : (s : Execution) → s.raised ≡ true → (one_round r s).pending ≡ s.pending
  unfolding one_round
  one_round-raised s h = elim (Bool-cases (collect r s (complete s.pending)).raised) [
    | inl stops ↦ rw stops (collect-pending (complete s.pending) s)
    | inr goes_on ↦ cc (h, collect-calm (complete s.pending) s goes_on)
  ]

  -- The loop over completed processes starts nothing.
  collect-start_failed :
      (ps : List Process) (s : Execution) → (collect r s ps).start_failed ≡ s.start_failed
  unfolding collect
  collect-start_failed [] s = refl
  collect-start_failed (p ∷ ps) s =
      by_flag (report r s p).raised (collect-start_failed ps (report r s p))
        (elim (report-cases s p) [
          | inl (fine, e) ↦ ap (λ t. t.start_failed) e
          | inr (bad, e) ↦ ap (λ t. t.start_failed) e
        ])
    where
      by_flag :
          (b : Bool)
          → (collect r (report r s p) ps).start_failed ≡ (report r s p).start_failed
          → (report r s p).start_failed ≡ s.start_failed
          → (if b then report r s p else collect r (report r s p) ps).start_failed ≡ s.start_failed
      by_flag true h e = e
      by_flag false h e = h ∙ e

  pub length-startable-le : (is : List Invocation) (n : ℕ) → length (startable r n is) ≤ length is
  unfolding startable
  length-startable-le [] n = omega arith
  length-startable-le (i ∷ is) n = ground (arith, length-startable-le is (n + 1))

  -- Why a round that would start `k` processes raises an exception: the formatter does on a process
  -- that it collects, or a start does, with no more processes pending than it would start.
  abbrev pub Stops : Execution → ℕ → Execution → Type 0
  Stops s k t =
      ((any_raises false (complete s.pending) ≡ true)
        × (t.start_failed ≡ s.start_failed)
        × (length t.pending ≤ length s.pending))
      ⊎ ((any_fails r s.launched (take k s.invocations) ≡ true)
          × (t.start_failed ≡ true)
          × (length t.pending ≤ length (running s.pending) + length (take k s.invocations)))

  -- A round collects without an exception and starts its processes.
  abbrev pub Passes : Execution → ℕ → Type 0
  Passes s k =
      (any_raises false (complete s.pending) ≡ false)
      × (any_fails r s.launched (take k s.invocations) ≡ false)

  pub startable-all :
      (is : List Invocation) (n : ℕ) → any_fails r n is ≡ false → startable r n is ≡ is
  unfolding any_fails startable
  startable-all [] n h = refl
  startable-all (i ∷ is) n h = elim (Bool-cases (r.starts n i)) [
    | inl starts ↦ rw starts (ap (◌∷◌ i) (startable-all is (n + 1) (rw starts at h)))
    | inr fails ↦ absurd (let bad = rw fails at h in cc)
  ]

  -- Every process that is started, if no exception of the formatter ends the run before.
  abbrev pub processes : ℕ → List Invocation → List Process
  processes n is = launch_all r n (startable r n is)

  startable-pending :
      (ps : List Process) (n : ℕ) (is : List Invocation)
      → length (ps ++ launch_all r n (startable r n is)) ≤ length ps + length is
  startable-pending ps n is = omega (
    arith,
    length-append ps (launch_all r n (startable r n is)),
    length-launch_all (startable r n is) n,
    length-startable-le is n,
  )

  -- A round either raises an exception, or it starts some processes.
  pub one_round_cases :
      (s : Execution) (k : ℕ)
      → s.raised ≡ false
      → capacity r s.round (length (running s.pending)) ≡ pos k
      → (Passes s k × (one_round r s ≡ round_of s k))
        ⊎ (((one_round r s).raised ≡ true) × Stops s k (one_round r s))
  unfolding one_round schedule
  one_round_cases s k calm e = elim (collect_cases (complete s.pending) s calm) [
    | inr (bad, raised) ↦ inr (
      rw raised raised,
      inl (
        bad,
        rw raised (collect-start_failed (complete s.pending) s),
        rw (raised, collect-pending (complete s.pending) s) (omega arith),
      ),
    )
    | inl (fine, same) ↦ elim (Bool-cases (any_fails r s.launched (take k s.invocations))) [
      | inr starts ↦ inl ((fine, starts), rw (same, calm, e, starts) refl)
      | inl fails ↦ inr (
        rw (same, calm, e, fails) refl,
        inr (
          fails,
          rw (same, calm, e, fails) refl,
          rw (same, calm, e, fails)
              (startable-pending (running s.pending) s.launched (take k s.invocations)),
        ),
      )
    ]
  ]
