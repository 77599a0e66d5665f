-- ===== src/IwyuTool/Execute/Balance.antt =====
-- What the loop of `execute` keeps: the processes that have ended, the pending ones and those to
-- come are all that can be started.
use mathlib.Core.List.{Perm}
use mathlib.Core.List.Perm
use for_montee.Base.{
  Bool, true, false, not, ◌||◌, max_ℤ, fold-append, ℕ, zero, suc, ◌+◌, ◌≡◌, refl, ap, sym, ◌∙◌, pos,
  List, [], ◌∷◌, ◌++◌, Text, length, take, drop, map, arith, Bool-cases, inl, inr, append_assoc,
  map-append,
}
use for_montee.IwyuTool.Execute.{
  Invocation, Process, Run, Execution, start_state, complete, running, launch_all, any_fails,
  startable,
}
use for_montee.IwyuTool.Execute.Fates.{
  Fate, fates, fates-complete-running, worst, worst-fates, any_raising, any_raising-perm,
  any_raising-fates, any_raising-true,
}
use for_montee.IwyuTool.Execute.Rounds.{
  processes, round_of, worst_from, outputs, shown, raises, any_raises, Passes,
}
use for_montee.IwyuTool.Execute.Ending.{future}

-- Six lists regrouped: the ended ones, those of one round, and those to come.
perm_regroup {ℓ} :
    {A : Type ℓ} (ended gone left new later pending future total : List A)
    → Perm (gone ++ left) pending
    → new ++ later ≡ future
    → Perm (ended ++ (pending ++ future)) total
    → Perm ((ended ++ gone) ++ ((left ++ new) ++ later)) total
perm_regroup ended gone left new later pending future total p e h =
    let round = Perm.append_left ended (Perm.append_right future p) in
    let same : (ended ++ gone) ++ ((left ++ new) ++ later) ≡ ended ++ ((gone ++ left) ++ future) =
      simp append_assoc (rw e) in
    rw same (Perm.trans round h)

or_assoc : (a b c : Bool) → ((a || b) || c) ≡ (a || (b || c))
or_assoc true b c = refl
or_assoc false b c = refl

module _ (r : Run) where
  abbrev pub lines : List Fate → List Text
  lines = map (λ f. shown r f.output)

  pub lines-fates : (ps : List Process) → lines (fates ps) ≡ outputs r ps
  lines-fates [] = refl
  lines-fates (p ∷ ps) = ap (◌∷◌ (shown r p.output)) (lines-fates ps)

  processes-split :
      (k n : ℕ) (is : List Invocation)
      → any_fails r n (take k is) ≡ false
      → launch_all r n (take k is) ++ processes r (n + length (take k is)) (drop k is)
        ≡ processes r n is
  unfolding launch_all any_fails startable
  processes-split zero n is h = ap (λ m. processes r m is) (omega arith)
  processes-split (suc k) n [] h = refl
  processes-split (suc k) n (i ∷ is) h = elim (Bool-cases (r.starts n i)) [
    | inl starts ↦
        let e : n + suc (length (take k is)) ≡ (n + 1) + length (take k is) = omega arith in
        rw (e, starts) (ap (◌∷◌ (r.launch n i)) (processes-split k (n + 1) is (rw starts at h)))
    | inr fails ↦ absurd (let bad = rw fails at h in cc)
  ]

  pub any_fails-split :
      (k n : ℕ) (is : List Invocation)
      → (any_fails r n (take k is) || any_fails r (n + length (take k is)) (drop k is))
        ≡ any_fails r n is
  unfolding any_fails
  any_fails-split zero n is = ap (λ m. any_fails r m is) (omega arith)
  any_fails-split (suc k) n [] = refl
  any_fails-split (suc k) n (i ∷ is) =
      let e : n + suc (length (take k is)) ≡ (n + 1) + length (take k is) = omega arith in
      rw (e, ← any_fails-split k (n + 1) is) (or_assoc (not (r.starts n i)) _ _)

  -- The processes that have ended account for what is printed and for the exit code, and with the
  -- pending ones and those to come they are all that can be started. No start has failed.
  pub record Balanced (all : List Invocation) (s : Execution) : Type 0 where
    pub ended : List Fate
    pub printed_is : s.printed ≡ lines ended
    pub exit_is : s.exit_code ≡ worst (pos 0) ended
    pub none_raises : any_raising r false ended ≡ false
    pub accounted :
        Perm
          (ended ++ (fates s.pending ++ fates (processes r s.launched s.invocations)))
          (fates (processes r 0 all))
    pub fails_left : any_fails r s.launched s.invocations ≡ any_fails r 0 all
    pub no_failure : s.start_failed ≡ false

  any_raising-append :
      (fs gs : List Fate)
      → any_raising r false fs ≡ false
      → any_raising r false (fs ++ gs) ≡ any_raising r false gs
  any_raising-append fs gs h =
      fold-append (λ b (f : Fate). b || raises r f.output) false fs gs
      ∙ ap (λ b. any_raising r b gs) h

  pub round_of-Balanced :
      (all : List Invocation) (s : Execution) (k : ℕ)
      → Passes r s k
      → Balanced all s
      → Balanced all (round_of r s k)
  round_of-Balanced all s k (fine, starts) b = record {
    fails_left =
        ap
          (λ b.
            b || any_fails r (s.launched + length (take k s.invocations)) (drop k s.invocations))
          (sym starts)
        ∙ any_fails-split k s.launched s.invocations
        ∙ b.fails_left;
    no_failure = b.no_failure;
    ended = b.ended ++ gone;
    printed_is =
        ap (λ t. t ++ outputs r (complete s.pending)) b.printed_is
        ∙ ap (◌++◌ (lines b.ended)) (sym (lines-fates (complete s.pending)))
        ∙ sym (map-append (λ (f : Fate). shown r f.output) b.ended gone);
    exit_is =
        ap (λ z. worst_from z (complete s.pending)) b.exit_is
        ∙ sym (worst-fates _ (complete s.pending))
        ∙ sym (fold-append (λ z (f : Fate). max_ℤ z f.returncode) (pos 0) b.ended gone);
    none_raises =
        any_raising-append b.ended gone b.none_raises
        ∙ any_raising-fates r false (complete s.pending)
        ∙ fine;
    accounted = rw map-append (
        perm_regroup b.ended gone (fates (running s.pending)) _ _ (fates s.pending) _ _
          (fates-complete-running s.pending) launched b.accounted);
  }
    where
      gone : List Fate
      gone = fates (complete s.pending)

      launched :
          fates (launch_all r s.launched (take k s.invocations))
            ++ fates
                (processes r (s.launched + length (take k s.invocations)) (drop k s.invocations))
          ≡ fates (processes r s.launched s.invocations)
      launched =
          sym (map-append _ (launch_all r s.launched (take k s.invocations)) _)
          ∙ ap fates (processes-split k s.launched s.invocations starts)

  -- The formatter raises an exception on a process that a balanced state collects.
  pub Balanced-raises :
      (all : List Invocation) (s : Execution)
      → Balanced all s
      → any_raises r false (complete s.pending) ≡ true
      → any_raises r false (processes r 0 all) ≡ true
  Balanced-raises all s b bad =
      let rest = fates (processes r s.launched s.invocations) in
      let step = λ (b : Bool) (f : Fate). b || raises r f.output in
      let met : any_raising r false (fates s.pending) ≡ true =
        sym (any_raising-perm r false (fates-complete-running s.pending))
        ∙ fold-append step false (fates (complete s.pending)) _
        ∙ ap (λ b. any_raising r b (fates (running s.pending)))
            (any_raising-fates r false (complete s.pending) ∙ bad)
        ∙ any_raising-true r (fates (running s.pending)) in
      sym (any_raising-fates r false (processes r 0 all))
      ∙ sym (any_raising-perm r false b.accounted)
      ∙ any_raising-append b.ended _ b.none_raises
      ∙ fold-append step false (fates s.pending) rest
      ∙ ap (λ b. any_raising r b rest) met
      ∙ any_raising-true r rest

pub start-Balanced : (r : Run) (is : List Invocation) → Balanced r is (start_state is)
start-Balanced r is = record {
  ended = [];
  printed_is = refl;
  exit_is = refl;
  none_raises = refl;
  accounted = Perm.refl _;
  fails_left = refl;
  no_failure = refl;
}
