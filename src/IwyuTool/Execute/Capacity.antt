-- ===== src/IwyuTool/Execute/Capacity.antt =====
-- How many processes a round of `execute` may start, and how many are ever pending.
use for_montee.Base.{
  ℕ, zero, suc, ◌+◌, ◌-◌, ◌≤◌, ◌<◌, ◌==◌, ◌≡◌, refl, ℤ, pos, sub_count, arith, Bool-cases, inl, inr,
  if◌then◌else◌,
}
use for_montee.IwyuTool.Execute.{IsLawful, Run, load_limited, is_positive_ℤ, capacity}

-- A natural number of starts that keeps `n` pending processes within `jobs`, and that is not 0
-- where nothing is pending.
pub record Fits (jobs n : ℕ) (c : ℤ) : Type 0 where
  pub count : ℕ
  pub is_count : c ≡ pos count
  pub within : n + count ≤ jobs
  pub some_start : n ≡ 0 → 0 < count

Fits-load_limited :
    (jobs n k : ℕ) → n + k ≤ jobs → 0 < jobs → Fits jobs n (load_limited (pos k) (n == 0))
Fits-load_limited jobs zero zero h p = record {
  count = 1;
  is_count = refl;
  within = omega arith;
  some_start = λ _. omega arith;
}
Fits-load_limited jobs (suc n) zero h p = record {
  count = 0;
  is_count = ground arith;
  within = h;
  some_start = λ e. absurd (omega arith);
}
Fits-load_limited jobs n (suc k) h p = record {
  count = suc k;
  is_count = refl;
  within = h;
  some_start = λ _. omega arith;
}

room-sub : (jobs n : ℕ) → n ≤ jobs → sub_count (pos jobs) n ≡ pos (jobs - n)
room-sub jobs n h = ground arith

Fits-room : (jobs n : ℕ) → n ≤ jobs → 0 < jobs → Fits jobs n (pos (jobs - n))
Fits-room jobs n h p = record {
  count = jobs - n;
  is_count = refl;
  within = omega arith;
  some_start = λ e. omega arith;
}

-- Where the load is below zero only a room above 0 is replaced.
Fits-overloaded :
    (jobs n : ℕ)
    → n ≤ jobs
    → 0 < jobs
    → Fits jobs n
        (if is_positive_ℤ (pos (jobs - n)) then load_limited (pos 0) (n == 0) else pos (jobs - n))
Fits-overloaded jobs n h p = elim (Bool-cases (is_positive_ℤ (pos (jobs - n)))) [
  | inl e ↦ rw e (Fits-load_limited jobs n 0 (omega arith) p)
  | inr e ↦ rw e (Fits-room jobs n h p)
]

-- Whatever the load, a round may start as many processes as `jobs` leaves room for, or fewer.
pub capacity-Fits :
    (r : Run) (jobs round n : ℕ)
    → IsLawful r.loads
    → r.jobs ≡ pos jobs
    → 0 < jobs
    → n ≤ jobs
    → Fits jobs n (capacity r round n)
unfolding capacity
capacity-Fits r jobs round n L e p h =
    rw (e, room-sub jobs n h)
      (elim (Bool-cases (r.loads.is_positive r.max_load_average)) [
        | inr off ↦ rw off (Fits-room jobs n h p)
        | inl on ↦ rw on (elim (Bool-cases (r.loads.below_zero free)) [
          | inl low ↦ rw low (Fits-overloaded jobs n h p)
          | inr high ↦ rw high (elim (Bool-cases (r.loads.below free (pos (jobs - n)))) [
            | inr enough ↦ rw enough (Fits-room jobs n h p)
            | inl fewer ↦ rw fewer (limited (L.trunc_bounds free (pos (jobs - n)) high fewer))
          ])
        ])
      ])
  where
    free : r.loads.Float
    free = r.loads.minus r.max_load_average (r.loads.loadavg round)

    limited :
        (m k : ℕ) × (r.loads.trunc free ≡ pos m) × (pos (jobs - n) ≡ pos k) × (m < k)
        → Fits jobs n (load_limited (r.loads.trunc free) (n == 0))
    limited (m, k, t, c, lt) = rw t (Fits-load_limited jobs n m (ground arith) p)
