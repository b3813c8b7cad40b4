-- ===== src/Tick.antt =====
-- scheduler_tick of sharedFolderHW2/sched.c, in the build for one processor.
pub mod Expiry
pub mod Overdue
pub mod Invariant
use os_hw.Base.{ℕ, ◌+◌, ◌*◌, Bool, false, not, ◌&&◌, ◌||◌, leb, ◌==◌, if◌then◌else◌, points_to}
use os_hw.Base.Int.{pos, ltb_ℤ}
use os_hw.Base.Words.{wrap, sub, dec}
use os_hw.Model.{
  Env, Task, Kernel, sched_other, sched_rr, overdue_prio, invalid_requested_time, set_task, set_rq,
}
use os_hw.Prio.{
  task_nice, rt_task, short_task, overdue_task, other_task, pointer_to_my_active_prio_array,
  task_interactive, task_timeslice, os_task_timeslice, effective_prio,
}
use os_hw.Queue.{dequeue_task, enqueue_task}
use os_hw.Runqueue.{resched_task}

-- The change of class of a task whose time is up: overdue to other, short to overdue.
unfoldable pub next_class : Task → Task
unfolding overdue_task short_task
next_class p =
    if overdue_task p
    then record p {
      policy = sched_other;
      i_am_overdue = 0;
      static_prio = p.overdue_static_prio;
      requested_time = pos invalid_requested_time;
    }
    else if short_task p
    then record p {
      i_am_overdue = 1;
      overdue_static_prio = p.static_prio;
      static_prio = overdue_prio;
    }
    else p

-- The time statistics, for a task that is not the idle task.
unfoldable pub account : ℕ → ℕ → Kernel → Kernel
unfolding task_nice
account user_tick system k =
    let s = k.kstat in
    let s' =
      if ltb_ℤ (pos 0) (task_nice (k.tasks k.current))
      then record s { per_cpu_nice = wrap (s.per_cpu_nice + user_tick) }
      else record s { per_cpu_user = wrap (s.per_cpu_user + user_tick) } in
    record k { kstat = record s' { per_cpu_system = wrap (s'.per_cpu_system + system) } }

module _ (env : Env) where
  -- EXPIRED_STARVING
  unfoldable pub expired_starving : Kernel → Bool
  expired_starving k =
      not (k.rq.expired_timestamp == 0)
      && leb (wrap (wrap (2 * env.hz * k.rq.nr_running) + 1)) (sub k.jiffies k.rq.expired_timestamp)

  -- A round-robin task whose slice is up goes to the end of its list.
  unfoldable pub rotate_rr : ℕ → Kernel → Kernel
  rotate_rr p k =
      let t = k.tasks p in
      let t' = record t { time_slice = task_timeslice env t; first_time_slice = false } in
      let k1 = resched_task p (set_task k p t') in
      let k2 = dequeue_task p (pointer_to_my_active_prio_array (k1.tasks p) k1.rq) k1 in
      enqueue_task p (pointer_to_my_active_prio_array (k2.tasks p) k2.rq) k2

  unfoldable pub tick_rt : ℕ → Kernel → Kernel
  unfolding rotate_rr
  tick_rt p k =
      let t = k.tasks p in
      let t' = record t { time_slice = dec t.time_slice } in
      let k' = set_task k p t' in
      if t.policy == sched_rr then if t'.time_slice == 0 then rotate_rr p k' else k' else k

  -- The fields of a task whose slice is up, as they stand before it is put on a list again.
  unfoldable pub refill : Task → Task
  unfolding next_class
  refill p =
      let t = next_class p in
      let t' = record t { prio = effective_prio env t; first_time_slice = false } in
      record t' { time_slice = os_task_timeslice env t' }

  -- The insertion that ends the slice: on `expired`, or on the array of the task's class.
  unfoldable pub requeue : ℕ → Kernel → Kernel
  unfolding other_task expired_starving
  requeue p k =
      let t = k.tasks p in
      let rq = k.rq in
      let stamped =
        if rq.expired_timestamp == 0
        then set_rq k (record rq { expired_timestamp = k.jiffies })
        else k in
      if other_task t && (not (task_interactive t) || expired_starving k)
      then enqueue_task p rq.expired stamped
      else enqueue_task p (pointer_to_my_active_prio_array t rq) k

  -- The body of `if (!--p->time_slice)`.
  unfoldable pub expire : ℕ → Kernel → Kernel
  unfolding refill requeue
  expire p k =
      let k1 = dequeue_task p (pointer_to_my_active_prio_array (k.tasks p) k.rq) k in
      let k2 = resched_task p k1 in requeue p (set_task k2 p (refill (k2.tasks p)))

  unfoldable pub tick_timeshare : ℕ → Kernel → Kernel
  unfolding expire
  tick_timeshare p k =
      let t = k.tasks p in
      let average = if t.sleep_avg == 0 then 0 else dec t.sleep_avg in
      let t' = record t { sleep_avg = average; time_slice = dec t.time_slice } in
      let k' = set_task k p t' in if t'.time_slice == 0 then expire p k' else k'

  -- `busy` is the test `local_bh_count(cpu) || local_irq_count(cpu) > 1`.
  unfoldable pub scheduler_tick : Bool → ℕ → ℕ → Kernel → Kernel
  unfolding account tick_rt tick_timeshare rt_task
  scheduler_tick busy user_tick system k =
      let p = k.current in
      let s = k.kstat in
      let idled =
        if busy
        then record k { kstat = record s { per_cpu_system = wrap (s.per_cpu_system + system) } }
        else k in
      let k' = account user_tick system k in
      if p == k.rq.idle
      then idled
      else if points_to (k'.tasks p).array k'.rq.expired
      then resched_task p k'
      else if rt_task (k'.tasks p)
      then tick_rt p k'
      else tick_timeshare p k'
