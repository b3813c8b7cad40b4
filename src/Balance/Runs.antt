-- ===== src/Balance/Runs.antt =====
-- The loops of load_balance of sharedFolderHW2/sched.c come to an end: 282 runs are enough.
use mathlib.Core.Path.{subst}
use os_hw.Base.{
  ℕ, zero, suc, ◌+◌, ◌-◌, ◌/◌, ◌≤◌, ◌<◌, ◌≡◌, ◌≢◌, refl, sym, ◌∙◌, Bool, not, ◌&&◌, Option, none,
  some, ltb, leb, ◌==◌, if◌then◌else◌, arith, ==-cases, Option-cases, inl, inr, if_split,
}
use os_hw.Base.Int.{ℤ, pos, sub_ℕ, quot, ltb_ℤ}
use os_hw.Base.Words.{wrap}
use os_hw.Balance.{
  walk_queue, walk_array, double_lock_balance, pull_tasks, own_load, find_busiest, load_balance,
}
use os_hw.Balance.Busiest.{IsInjective, IsChosen, find_busiest_lem}
use os_hw.Balance.Moves.{IsPulled, walk_queue-IsPulled}
use os_hw.Balance.State.{SmpRq, Smp, SmpEnv}
use os_hw.Links.Loops.{reverse}
use os_hw.Model.{max_prio}

-- find_next_bit answers with the size, or with a bit from the given one on.
pub record IsNextBit (env : SmpEnv) : Type 0 where
  pub le : (v : ℕ → Bool) (i : ℕ) → env.find_next_bit v max_prio i ≤ max_prio
  pub ge : (v : ℕ → Bool) (i : ℕ) → i ≤ max_prio → i ≤ env.find_next_bit v max_prio i
  pub past : (v : ℕ → Bool) (i : ℕ) → max_prio < i → env.find_next_bit v max_prio i ≡ max_prio

-- How many runs are enough for one array.
abbrev runs_from : ℕ → ℕ
runs_from idx = if leb max_prio idx then 1 else suc max_prio - idx

-- The two arrays of a runqueue are different.
abbrev pub IsApart : ℕ → Smp → Type 0
IsApart busiest m = (m.rqs busiest).active ≢ (m.rqs busiest).expired

abbrev IsAnswered : Option Smp → Type 0
IsAnswered o = (m' : Smp) × (o ≡ some m')

module _ (env : SmpEnv) (next : IsNextBit env) (busiest this : ℕ) (ne : this ≢ busiest) where
  IsApart-pulled :
      (m m' : Smp) → IsPulled env busiest this m m' → IsApart busiest m → IsApart busiest m'
  IsApart-pulled m m' h apart e = apart (sym (h.arrays busiest).0 ∙ e ∙ (h.arrays busiest).1)

  -- The step of the search: a run less is enough for what comes after it.
  step_runs :
      (v : ℕ → Bool) (idx runs : ℕ)
      → let at =
          if idx == 0 then env.sched_find_first_bit v else env.find_next_bit v max_prio idx in
        at ≢ max_prio → runs_from idx ≤ suc runs → runs_from (suc at) ≤ runs
  step_runs v idx runs = ground (arith, next.le v idx, next.ge v idx, next.past v idx)

  active-IsAnswered :
      (runs idx : ℕ) (idle : Bool) (array : ℕ) (imbalance : ℤ) (m : Smp)
      → array ≢ (m.rqs busiest).expired
      → runs_from idx ≤ runs
      → IsAnswered (walk_array env runs idx idle array busiest this imbalance m)
  unfolding walk_array
  active-IsAnswered zero idx idle array imbalance m other h = ground (arith, h)
  active-IsAnswered (suc runs) idx idle array imbalance m other h =
      let v = m.kernel.arrays array in
      let at =
        if idx == 0
        then env.sched_find_first_bit v.bitmap
        else env.find_next_bit v.bitmap max_prio idx in
      let w = walk_queue env (reverse (v.queue at)) idle array busiest this imbalance m in
      let pulled =
        walk_queue-IsPulled env busiest this (reverse (v.queue at)) idle array imbalance m ne in
      if_split IsAnswered (at == max_prio) _ _
        (λ b.
          if_split IsAnswered (array == (m.rqs busiest).expired) _ _ (λ x. ground (arith, x, other))
            (λ x. (m, refl)))
        (λ b.
          if_split IsAnswered w.enough _ _ (λ x. (w.state, refl))
            (λ x.
              active-IsAnswered runs (suc at) idle array w.imbalance w.state
                (λ e. other (e ∙ (pulled.arrays busiest).1))
                (step_runs v.bitmap idx runs (ground (arith, b)) h)))

  walk_array-IsAnswered :
      (runs idx : ℕ) (idle : Bool) (array : ℕ) (imbalance : ℤ) (m : Smp)
      → IsApart busiest m
      → runs_from idx + runs_from 0 ≤ runs
      → IsAnswered (walk_array env runs idx idle array busiest this imbalance m)
  unfolding walk_array
  walk_array-IsAnswered zero idx idle array imbalance m apart h = ground (arith, h)
  walk_array-IsAnswered (suc runs) idx idle array imbalance m apart h =
      let v = m.kernel.arrays array in
      let at =
        if idx == 0
        then env.sched_find_first_bit v.bitmap
        else env.find_next_bit v.bitmap max_prio idx in
      let w = walk_queue env (reverse (v.queue at)) idle array busiest this imbalance m in
      let pulled =
        walk_queue-IsPulled env busiest this (reverse (v.queue at)) idle array imbalance m ne in
      if_split IsAnswered (at == max_prio) _ _
        (λ b.
          if_split IsAnswered (array == (m.rqs busiest).expired) _ _
            (λ x.
              active-IsAnswered runs 0 idle (m.rqs busiest).active imbalance m apart
                (ground (arith, h)))
            (λ x. (m, refl)))
        (λ b.
          if_split IsAnswered w.enough _ _ (λ x. (w.state, refl))
            (λ x.
              walk_array-IsAnswered runs (suc at) idle array w.imbalance w.state
                (IsApart-pulled m w.state pulled apart)
                (ground (
                  arith,
                  h,
                  step_runs v.bitmap idx (runs - runs_from 0) (ground (arith, b))
                      (ground (arith, h)),
                ))))

  -- Enough runs for the two arrays give an answer.
  pull_tasks-IsAnswered :
      (runs : ℕ) (idle : Bool) (nr_running : ℕ) (imbalance : ℤ) (m : Smp)
      → IsApart busiest (double_lock_balance env this busiest idle nr_running m).1
      → 282 ≤ runs
      → IsAnswered (pull_tasks env runs idle this busiest nr_running imbalance m)
  unfolding pull_tasks
  pull_tasks-IsAnswered runs idle nr_running imbalance m apart h =
      let (nr, locked) = double_lock_balance env this busiest idle nr_running m in
      let rq = locked.rqs busiest in
      let array =
        if not ((locked.kernel.arrays rq.expired).nr_active == 0) then rq.expired else rq.active in
      if_split IsAnswered (leb rq.nr_running (wrap (nr + 1))) _ _ (λ b. (locked, refl))
        (λ b. walk_array-IsAnswered runs 0 idle array imbalance locked apart (ground (arith, h)))

module _ (env : SmpEnv) (next : IsNextBit env) where
  double_lock_balance-IsApart :
      ((c : ℕ) (m : Smp) → ((q : ℕ) → IsApart q m) → (q : ℕ) → IsApart q (env.spin_lock c m))
      → (this busiest : ℕ) (idle : Bool) (nr_running : ℕ) (m : Smp) → ((q : ℕ) → IsApart q m)
      → (q : ℕ) → IsApart q (double_lock_balance env this busiest idle nr_running m).1
  unfolding double_lock_balance
  double_lock_balance-IsApart locks this busiest idle nr_running m apart q =
      let P : ℕ × Smp → Type 0 = λ (x : ℕ × Smp). IsApart q x.1 in
      let once = locks busiest m apart in
      if_split P (env.spin_trylock busiest m) _ _ (λ b. apart q)
        (λ b.
          if_split P (ltb busiest this) _ _ (λ c. locks this (env.spin_lock busiest m) once q)
            (λ c. once q))

  -- load_balance ends within 282 runs of its search for a priority, if the processors of
  -- cpu_logical_map are different ones, find_next_bit answers with the size or a bit from the
  -- given one on, and active and expired are different arrays of each runqueue, also after a wait
  -- for a lock.
  pub load_balance_ends :
      IsInjective env
      → ((c : ℕ) (m : Smp) → ((q : ℕ) → IsApart q m) → (q : ℕ) → IsApart q (env.spin_lock c m))
      → (runs this : ℕ) (idle : Bool) (m : Smp) → ((q : ℕ) → IsApart q m)
      → 282 ≤ runs
      → (m' : Smp) × (load_balance env runs this idle m ≡ some m')
  unfolding load_balance
  load_balance_ends inj locks runs this idle m apart h =
      let (found, m1) = find_busiest env idle this m in
      let (lengths, (chosen, saved)) = find_busiest_lem env idle this inj m in
      let nr = own_load idle this m in
      let imbalance = quot (sub_ℕ found.max_load nr) 2 in
      let apart1 : (q : ℕ) → IsApart q m1 = λ q. elim (==-cases this q) [
        | inl same ↦
            subst (λ p. IsApart p m1) same
              (subst (λ (rq : SmpRq). rq.active ≢ rq.expired) (sym saved.own) (apart this))
        | inr away ↦
            subst (λ (rq : SmpRq). rq.active ≢ rq.expired) (sym (saved.others q away)) (apart q)
      ] in
      let after : Option ℕ → Option Smp = λ o. elim o as (λ o. Option Smp) [
        | none ↦ some m1
        | some b ↦
            if not idle && ltb_ℤ imbalance (pos ((found.max_load + 3) / 4))
            then some m1
            else pull_tasks env runs idle this b nr imbalance m1
      ] in
      elim (Option-cases found.busiest) [
        | inl e ↦ subst (λ o. IsAnswered (after o)) (sym e) (m1, refl)
        | inr (b, e) ↦
            let there = subst (λ o. IsChosen env idle this m o found.max_load) e chosen in
            let other : this ≢ b = λ x. there.0 (sym x) in
            subst (λ o. IsAnswered (after o)) (sym e)
              (if_split IsAnswered (not idle && ltb_ℤ imbalance (pos ((found.max_load + 3) / 4))) _
                _ (λ x. (m1, refl))
                (λ x.
                  pull_tasks-IsAnswered env next b this other runs idle nr imbalance m1
                    (double_lock_balance-IsApart locks this b idle nr m1 apart1 b) h))
      ]
