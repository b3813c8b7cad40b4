-- ===== src/Yield/Ending.antt =====
-- sys_sched_yield with its call of schedule.
use os_hw.Base.{ℕ, suc, ◌≤◌, ◌<◌, ◌≡◌, inr, true, false, some, List, arith, length, count}
use os_hw.Model.{Env, Kernel}
use os_hw.Schedule.Ending.{CanSchedule, schedule-Ends}
use os_hw.Valid.{IsValid}
use os_hw.Yield.{yield_on, sys_sched_yield}
use os_hw.Yield.Invariant.{yield_on-IsValid, yield_on_kept}

module _ (env : Env) (a : ℕ) (k : Kernel) (c : CanSchedule k)
    (here : (k.tasks k.current).array ≡ some a) where
  yield_on-CanSchedule : CanSchedule (yield_on env k.current a k)
  yield_on-CanSchedule =
      let (fields, totals, rq, current) = yield_on_kept k.current a k c.valid here env in
      let k' = yield_on env k.current a k in
      record {
        valid = yield_on-IsValid k.current a k c.valid here env;
        leaves = inr (a, rw current (ground (arith, fields k.current, here)));
        idle_runs = rw rq (ground (arith, fields k.rq.idle, c.idle_runs));
        fits = λ b. rw (totals b) (c.fits b);
      }

  -- From a state from which schedule may be called in the sense of CanSchedule (valid, the idle
  -- task in state TASK_RUNNING, no array with 2 ^ 32 tasks), with the running task on an array and
  -- every flag need_resched that of a task of a list, sched_yield ends, if schedule may pass at
  -- least two times more often than the list has tasks, in a valid state whose running task has no
  -- flag need_resched.
  pub sys_sched_yield-Ends :
      (passes : ℕ) (l : List ℕ)
      → ((q : ℕ) → (k.tasks q).need_resched ≡ true → 1 ≤ count q l)
      → length l < passes
      → (k' : Kernel) × (sys_sched_yield env (suc passes) k ≡ some k')
        × IsValid k'
        × ((k'.tasks k'.current).need_resched ≡ false)
  unfolding sys_sched_yield
  sys_sched_yield-Ends passes l f small =
      let (fields, totals, rq, current) = yield_on_kept k.current a k c.valid here env in
      rw (here, sys_sched_yield)
        (schedule-Ends env passes l (yield_on env k.current a k) yield_on-CanSchedule
          (λ q h. f q (ground (arith, fields q))) small)
