-- ===== src/Schedule/Ending.antt =====
-- The loop of schedule on need_resched: each pass clears a flag, so that it ends.
use mathlib.Core.Path.{subst}
use os_hw.Base.{
  ℕ, zero, suc, ◌≤◌, ◌<◌, ◌≡◌, ◌≢◌, refl, sym, ◌∙◌, inl, inr, true, false, some, List, arith,
  Option-cases, Bool-cases, length, count, remove, count-remove, length-remove,
}
use os_hw.Base.Words.{word_size}
use os_hw.Model.{Env, Kernel, task_running}
use os_hw.Queue.Sync.{total}
use os_hw.Schedule.{leave, pick_next, switch_tasks, schedule_pass, schedule}
use os_hw.Schedule.Invariant.{
  CanLeave, leave-IsValid, pick_next-IsValid, pick_next_found, switch_tasks-IsValid,
}
use os_hw.Valid.{IsValid}
use os_hw.Schedule.Calmer.{
  IsCalmer, IsCalmer-trans, leave-IsCalmer, switch_tasks-IsCalmer, switch_tasks_clears,
  switch_tasks_next, leave_current, pick_next-IsCalmer, pick_next_current, pick_next_picked,
}

-- A state in which schedule can be called, whoever runs next.
pub record CanSchedule (k : Kernel) : Type 0 where
  pub valid : IsValid k
  pub leaves : CanLeave k
  pub idle_runs : (k.tasks k.rq.idle).state ≡ task_running
  pub fits : (a : ℕ) → total (k.arrays a) < word_size

module _ (env : Env) where
  -- One pass: the state after it can schedule again, no flag is set, and that of the task that left
  -- is clear.
  schedule_pass-CanSchedule :
      (k : Kernel)
      → CanSchedule k
      → (k' : Kernel) × (schedule_pass env k ≡ some k')
        × CanSchedule k'
        × ((q : ℕ)
            → (k'.tasks q).need_resched ≡ true
            → ((k.tasks q).need_resched ≡ true) × (q ≢ k.current))
  unfolding schedule_pass
  schedule_pass-CanSchedule k c =
      let k1 = leave k in
      let calm1 : IsCalmer k k1 = leave-IsCalmer k c.valid c.leaves in
      let v1 : IsValid k1 = leave-IsValid k c.valid c.leaves in
      let fits1 : (a : ℕ) → total (k1.arrays a) < word_size =
        λ a. omega (arith, calm1.totals a, c.fits a) in
      let k2 = (pick_next env k1).0 in
      let v2 : IsValid k2 = pick_next-IsValid env k1 v1 in
      let calm2 : IsCalmer k k2 = IsCalmer-trans k k1 k2 calm1 (pick_next-IsCalmer env k1) in
      elim (Option-cases (pick_next env k1).1) [
        | inl e ↦ absurd (pick_next_found env k1 v1 fits1 e)
        | inr (n, e) ↦
            let k3 = switch_tasks n k2 in
            let calm3 : IsCalmer k k3 = IsCalmer-trans k k2 k3 calm2 (switch_tasks-IsCalmer n k2) in
            let next = switch_tasks_next n k2 in
            let old : k2.current ≡ k.current = pick_next_current env k1 ∙ leave_current k in
            let runs : (k3.tasks k3.rq.idle).state ≡ task_running =
              subst (λ i. (k3.tasks i).state ≡ task_running) (sym calm3.idle)
                (calm3.idle_runs c.idle_runs) in
            (
              k3,
              rw (e, schedule_pass) refl,
              record {
                valid = switch_tasks-IsValid n k2 v2;
                leaves = elim (pick_next_picked env k1 n v2 e) [
                  | inl idle ↦
                      let here : k3.current ≡ k3.rq.idle =
                        next.2 ∙ idle ∙ calm2.idle ∙ sym calm3.idle in
                      inl (subst (λ i. (k3.tasks i).state ≡ task_running) (sym here) runs)
                  | inr (a, on) ↦ inr (a, rw next.2 (next.0 ∙ on))
                ];
                idle_runs = runs;
                fits = λ a. omega (arith, calm3.totals a, c.fits a);
              },
              λ q h. (
                calm3.flags q h,
                λ same.
                    let clear : (k3.tasks q).need_resched ≡ false =
                      subst (λ r. (k3.tasks r).need_resched ≡ false) (old ∙ sym same)
                        (switch_tasks_clears n k2) in
                    cc,
              ),
            )
      ]

  -- Every flag is that of a task of the list.
  abbrev pub FlagsIn : Kernel → List ℕ → Type 0
  FlagsIn k l = (q : ℕ) → (k.tasks q).need_resched ≡ true → 1 ≤ count q l

  -- schedule comes to an end, in a valid state whose running task has no flag.
  abbrev pub Ends : ℕ → Kernel → Type 0
  Ends passes k =
      (k' : Kernel) × (schedule env passes k ≡ some k')
      × IsValid k'
      × ((k'.tasks k'.current).need_resched ≡ false)

  pass-Ends :
      (passes : ℕ) (k k' : Kernel)
      → schedule_pass env k ≡ some k'
      → IsValid k'
      → ((k'.tasks k'.current).need_resched ≡ true → Ends passes k')
      → Ends (suc passes) k
  unfolding schedule
  pass-Ends passes k k' e v again = elim (Bool-cases (k'.tasks k'.current).need_resched) [
    | inl flagged ↦
        let (k'', e', v', rest) = again flagged in
        (k'', rw (e, schedule) (rw (flagged, schedule) e'), v', rest)
    | inr clear ↦ (k', rw (e, schedule) (rw (clear, schedule) refl), v, clear)
  ]

  -- A pass that is followed by another clears the flag of a task of the list.
  schedule_flagged :
      (passes : ℕ) (l : List ℕ) (k : Kernel)
      → CanSchedule k
      → FlagsIn k l
      → (k.tasks k.current).need_resched ≡ true
      → length l < passes
      → Ends passes k
  schedule_flagged zero l k c f h small = absurd (omega arith)
  schedule_flagged (suc passes) l k c f h small =
      let (k', e, c', calmer) = schedule_pass-CanSchedule k c in
      let l' = remove k.current l in
      let f' : FlagsIn k' l' = λ q h'.
        let (flag, other) = calmer q h' in ground (arith, f q flag, count-remove q k.current l) in
      let shorter : length l' < passes = omega (arith, f k.current h, length-remove k.current l) in
      pass-Ends passes k k' e c'.valid λ h'. schedule_flagged passes l' k' c' f' h' shorter

  -- From a valid state in which the running task is in state TASK_RUNNING or on an array, the idle
  -- task is in state TASK_RUNNING, no array holds 2 ^ 32 tasks and every flag need_resched is that
  -- of a task of a list, schedule ends if it may pass at least two times more often than the list
  -- has tasks, in a valid state whose running task has no flag need_resched.
  pub schedule-Ends :
      (passes : ℕ) (l : List ℕ) (k : Kernel)
      → CanSchedule k
      → FlagsIn k l
      → length l < passes
      → Ends (suc passes) k
  schedule-Ends passes l k c f small =
      let (k', e, c', calmer) = schedule_pass-CanSchedule k c in
      pass-Ends passes k k' e c'.valid
        λ h'. schedule_flagged passes l k' c' (λ q h. f q (calmer q h).0) h' small
