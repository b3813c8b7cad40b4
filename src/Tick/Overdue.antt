-- ===== src/Tick/Overdue.antt =====
-- A SHORT task that keeps the processor becomes overdue: scheduler_tick, as often as the slice has
-- jiffies.
use mathlib.Core.Path.{subst}
use os_hw.Base.{
  ℕ, zero, suc, ◌<◌, ◌≡◌, ◌≢◌, refl, sym, ap, ◌∙◌, true, false, some, arith, points_to, ◌==◌,
  if◌then◌else◌, ==_refl,
}
use os_hw.Base.Words.{word_size, dec}
use os_hw.Model.{Env, Task, Runqueue, Kernel, overdue_prio, set_task}
use os_hw.Prio.{rt_task, short_task, overdue_task, other_task, pointer_to_my_active_prio_array}
use os_hw.Queue.{dequeue_task, enqueue_tail}
use os_hw.Queue.Effects.{tasks-dequeue, current-dequeue, tasks-enqueue_tail, rq-enqueue_tail}
use os_hw.Queue.Frame.{fork_pending_not, enqueue_task_plain}
use os_hw.Runqueue.{resched_task}
use os_hw.Tick.{account, refill, requeue, expire, tick_timeshare, scheduler_tick}
use os_hw.Tick.Expiry.{refill_short}

-- The running task is a SHORT one below the real-time priorities, on an array other than expired.
pub record RunsShort (k : Kernel) : Type 0 where
  pub proper : k.current ≢ k.rq.idle
  pub placed : points_to (k.tasks k.current).array k.rq.expired ≡ false
  pub ordinary : rt_task (k.tasks k.current) ≡ false
  pub short : short_task (k.tasks k.current) ≡ true
  pub calm : (k.tasks k.current).just_got_forked ≡ false

module _ (env : Env) (user_tick system : ℕ) where
  -- The clock ticks.
  unfoldable pub ticks : ℕ → Kernel → Kernel
  ticks zero k = k
  ticks (suc n) k = ticks n (scheduler_tick env false user_tick system k)

  tick_charged :
      (k : Kernel)
      → RunsShort k
      → scheduler_tick env false user_tick system k
        ≡ tick_timeshare env k.current (account user_tick system k)
  unfolding scheduler_tick account
  tick_charged k r = ground (arith, r.proper, r.placed, r.ordinary)

  abbrev charged : Kernel → ℕ → Kernel
  charged k slice =
      let t = k.tasks k.current in
      set_task (account user_tick system k) k.current (record t {
        sleep_avg = if t.sleep_avg == 0 then 0 else dec t.sleep_avg;
        time_slice = slice;
      })

  -- A tick that leaves some of the slice.
  tick_left :
      (k : Kernel) (n : ℕ)
      → RunsShort k
      → (k.tasks k.current).time_slice ≡ suc (suc n)
      → suc (suc n) < word_size
      → scheduler_tick env false user_tick system k ≡ charged k (suc n)
  unfolding tick_timeshare account
  tick_left k n r slice small =
      let less : dec (suc (suc n)) ≡ suc n = omega arith in
      let more : (suc n == 0) ≡ false = ground arith in
      tick_charged k r ∙ rw (slice, less, more) refl

  charged-RunsShort : (k : Kernel) (n : ℕ) → RunsShort k → RunsShort (charged k n)
  unfolding account rt_task short_task
  charged-RunsShort k n r = record {
    proper = r.proper;
    placed = rw (==_refl k.current) r.placed;
    ordinary = rw (==_refl k.current) r.ordinary;
    short = rw (==_refl k.current) r.short;
    calm = rw (==_refl k.current) r.calm;
  }

  -- The tick that ends the slice.
  tick_last :
      (k : Kernel)
      → RunsShort k
      → (k.tasks k.current).time_slice ≡ 1
      → scheduler_tick env false user_tick system k ≡ expire env k.current (charged k 0)
  unfolding tick_timeshare account
  tick_last k r slice =
      let less : dec 1 ≡ 0 = omega arith in tick_charged k r ∙ rw (slice, less) refl

  -- What the end of the slice makes of the task.
  abbrev pub IsOverdueNow : ℕ → Kernel → Type 0
  IsOverdueNow p k =
      (overdue_task (k.tasks p) ≡ true)
      × ((k.tasks p).prio ≡ overdue_prio)
      × ((k.tasks p).need_resched ≡ true)
      × ((k.tasks p).array ≡ some k.rq.overdue)

  overdue_array :
      (t : Task) (rq : Runqueue)
      → overdue_task t ≡ true
      → t.prio ≡ overdue_prio
      → (other_task t ≡ false) × (pointer_to_my_active_prio_array t rq ≡ rq.overdue)
  unfolding other_task overdue_task short_task rt_task pointer_to_my_active_prio_array
  overdue_array t rq over low = ground arith

  requeue_overdue :
      (p : ℕ) (k : Kernel)
      → overdue_task (k.tasks p) ≡ true
      → (k.tasks p).prio ≡ overdue_prio
      → (k.tasks k.current).just_got_forked ≡ false
      → requeue env p k ≡ enqueue_tail p k.rq.overdue k
  unfolding requeue
  requeue_overdue p k over low calm =
      let (other, array) = overdue_array (k.tasks p) k.rq over low in
      rw (other, array) (enqueue_task_plain p k.rq.overdue k (fork_pending_not p k calm))

  overdue_put :
      (p : ℕ) (k : Kernel)
      → overdue_task (k.tasks p) ≡ true
      → (k.tasks p).prio ≡ overdue_prio
      → (k.tasks p).need_resched ≡ true
      → IsOverdueNow p (enqueue_tail p k.rq.overdue k)
  unfolding overdue_task
  overdue_put p k over low flag =
      let t = tasks-enqueue_tail p k.rq.overdue k p in
      rw (rq-enqueue_tail p k.rq.overdue k, t, ==_refl p) (over, low, flag, refl)

  refill_calm : (t : Task) → (refill env t).just_got_forked ≡ t.just_got_forked
  unfolding refill
  refill_calm t = ground arith

  refill_flag : (t : Task) → (refill env t).need_resched ≡ t.need_resched
  unfolding refill
  refill_flag t = ground arith

  flagged_short :
      (t : Task) → short_task t ≡ true → short_task (record t { need_resched = true }) ≡ true
  unfolding short_task
  flagged_short t h = h

  set_task_self : (p : ℕ) (t : Task) (k : Kernel) → (set_task k p t).tasks p ≡ t
  set_task_self p t k = rw (==_refl p) refl

  resched_task_self :
      (p : ℕ) (k : Kernel)
      → ((resched_task p k).tasks p ≡ record (k.tasks p) { need_resched = true })
        × ((resched_task p k).current ≡ k.current)
  unfolding resched_task
  resched_task_self p k = (rw (==_refl p) refl, refl)

  expire-IsOverdueNow : (k : Kernel) → RunsShort k → IsOverdueNow k.current (expire env k.current k)
  unfolding expire
  expire-IsOverdueNow k r =
      let p = k.current in
      let t = record (k.tasks p) { need_resched = true } in
      let a = pointer_to_my_active_prio_array (k.tasks p) k.rq in
      let k2 = resched_task p (dequeue_task p a k) in
      let k3 = set_task k2 p (refill env (k2.tasks p)) in
      let (marked, runs) = resched_task_self p (dequeue_task p a k) in
      let flagged : k2.tasks p ≡ t =
        marked ∙ ap (λ f. record (f p) { need_resched = true }) (tasks-dequeue p a k) in
      let own : k3.tasks p ≡ refill env t =
        set_task_self p (refill env (k2.tasks p)) k2 ∙ ap (refill env) flagged in
      let same : k3.current ≡ p = runs ∙ current-dequeue p a k in
      let (over, low, saved, slice) = refill_short env t (flagged_short (k.tasks p) r.short) in
      let calm : (k3.tasks k3.current).just_got_forked ≡ false =
        subst (λ q. (k3.tasks q).just_got_forked ≡ false) (sym same)
          (ap Task.just_got_forked own ∙ refill_calm t ∙ r.calm) in
      let over' : overdue_task (k3.tasks p) ≡ true = ap overdue_task own ∙ over in
      let low' : (k3.tasks p).prio ≡ overdue_prio = ap Task.prio own ∙ low in
      let flag' : (k3.tasks p).need_resched ≡ true = ap Task.need_resched own ∙ refill_flag t in
      subst (λ k'. IsOverdueNow p k') (sym (requeue_overdue p k3 over' low' calm))
        (overdue_put p k3 over' low' flag')

  charged_slice : (k : Kernel) (n : ℕ) → ((charged k n).tasks k.current).time_slice ≡ n
  charged_slice k n = rw (==_refl k.current) refl

  -- A running SHORT task with n + 1 jiffies left, fewer than 2 ^ 32, on an array other than
  -- expired, with a priority that is not real-time, not the idle task and without the flag
  -- justGotForked, is after n + 1 ticks of the clock, none of them busy, overdue: it has the
  -- priority OVERDUE_PRIO and the flag need_resched and stands on the array overdue.
  pub ticks-IsOverdueNow :
      (n : ℕ) (k : Kernel)
      → RunsShort k
      → (k.tasks k.current).time_slice ≡ suc n
      → suc n < word_size
      → IsOverdueNow k.current (ticks (suc n) k)
  unfolding ticks account
  ticks-IsOverdueNow zero k r slice small =
      subst (λ k'. IsOverdueNow k.current k') (sym (tick_last k r slice))
        (expire-IsOverdueNow (charged k 0) (charged-RunsShort k 0 r))
  ticks-IsOverdueNow (suc n) k r slice small =
      subst (λ k'. IsOverdueNow k.current (ticks (suc n) k')) (sym (tick_left k n r slice small))
        (ticks-IsOverdueNow n (charged k (suc n)) (charged-RunsShort k (suc n) r)
          (charged_slice k (suc n)) (omega arith))
