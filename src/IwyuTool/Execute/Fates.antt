-- ===== src/IwyuTool/Execute/Fates.antt =====
-- The outputs and return codes of processes, in any order.
use mathlib.Core.List.{Perm, perm_middle}
use mathlib.Core.List.Perm
use for_montee.Base.{
  fold, fold-perm, fold-map, Bool, true, ◌||◌, ◌≡◌, refl, ℤ, pos, negsuc, max_ℤ, List, [], ◌∷◌,
  ◌++◌, Text, map, arith, Bool-cases, inl, inr,
}
use for_montee.IwyuTool.Execute.{Run, Process, has_exited, complete, running}
use for_montee.IwyuTool.Execute.Rounds.{worst_from, raises, any_raises}

-- What becomes of a process, without the time that it takes.
pub record Fate : Type 0 where
  pub output : Text
  pub returncode : ℤ

abbrev pub fates : List Process → List Fate
fates = map (λ p. record { output = p.output; returncode = p.returncode })

pub fates-complete-running :
    (ps : List Process) → Perm (fates (complete ps) ++ fates (running ps)) (fates ps)
fates-complete-running [] = Perm.refl []
fates-complete-running (p ∷ ps) = elim (Bool-cases (has_exited p)) [
  | inl gone ↦ rw gone (Perm.cons _ (fates-complete-running ps))
  | inr runs ↦
      rw runs
        (Perm.trans (perm_middle (fates (complete ps)) _) (Perm.cons _ (fates-complete-running ps)))
]

abbrev pub worst : ℤ → List Fate → ℤ
worst = fold (λ z f. max_ℤ z f.returncode)

max_ℤ_comm_right : (z a b : ℤ) → max_ℤ (max_ℤ z a) b ≡ max_ℤ (max_ℤ z b) a
max_ℤ_comm_right (pos x) (pos y) (pos z) = ground arith
max_ℤ_comm_right (pos x) (pos y) (negsuc z) = ground arith
max_ℤ_comm_right (pos x) (negsuc y) (pos z) = ground arith
max_ℤ_comm_right (pos x) (negsuc y) (negsuc z) = ground arith
max_ℤ_comm_right (negsuc x) (pos y) (pos z) = ground arith
max_ℤ_comm_right (negsuc x) (pos y) (negsuc z) = ground arith
max_ℤ_comm_right (negsuc x) (negsuc y) (pos z) = ground arith
max_ℤ_comm_right (negsuc x) (negsuc y) (negsuc z) = ground arith

ℤ-set : IsSet ℤ
ℤ-set = hlevel

-- The order in which processes end does not change the greatest return code.
pub worst-perm : (z : ℤ) {fs gs : List Fate} → Perm fs gs → worst z fs ≡ worst z gs
worst-perm z p =
    fold-perm (λ z (f : Fate). max_ℤ z f.returncode)
      (λ z f g. max_ℤ_comm_right z f.returncode g.returncode) ℤ-set z p

pub worst-fates : (z : ℤ) (ps : List Process) → worst z (fates ps) ≡ worst_from z ps
worst-fates z ps = fold-map (λ z (f : Fate). max_ℤ z f.returncode) _ z ps

module _ (r : Run) where
  -- The formatter raises an exception on one of the outputs.
  abbrev pub any_raising : Bool → List Fate → Bool
  any_raising = fold (λ b f. b || raises r f.output)

  or_comm_right : (a b c : Bool) → (a || b) || c ≡ (a || c) || b
  or_comm_right a b c = ground arith

  Bool-set : IsSet Bool
  Bool-set = hlevel

  pub any_raising-perm :
      (b : Bool) {fs gs : List Fate} → Perm fs gs → any_raising b fs ≡ any_raising b gs
  any_raising-perm b p =
      fold-perm (λ b (f : Fate). b || raises r f.output)
        (λ b f g. or_comm_right b (raises r f.output) (raises r g.output)) Bool-set b p

  pub any_raising-fates :
      (b : Bool) (ps : List Process) → any_raising b (fates ps) ≡ any_raises r b ps
  any_raising-fates b ps = fold-map (λ b (f : Fate). b || raises r f.output) _ b ps

  pub any_raising-true : (fs : List Fate) → any_raising true fs ≡ true
  any_raising-true [] = refl
  any_raising-true (f ∷ fs) = any_raising-true fs
