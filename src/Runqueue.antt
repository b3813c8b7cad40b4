-- ===== src/Runqueue.antt =====
-- Tasks that come to the runqueue and leave it: activate_task to sched_exit of
-- sharedFolderHW2/sched.c, in the build for one processor.
pub mod Invariant
use os_hw.Base.{
  ℕ, ◌+◌, ◌*◌, ◌/◌, Bool, true, false, not, ◌&&◌, Option, none, some, ltb, ◌==◌, if◌then◌else◌,
}
use os_hw.Base.Words.{wrap, sub, inc, dec}
use os_hw.Model.{Env, Task, Kernel, task_running, task_uninterruptible, set_task, set_rq}
use os_hw.Prio.{
  rt_task, pointer_to_my_active_prio_array, max_sleep_avg, max_timeslice, effective_prio,
}
use os_hw.Queue.{dequeue_task, enqueue_task}

-- set_tsk_need_resched(p), which is all of resched_task on one processor
unfoldable pub resched_task : ℕ → Kernel → Kernel
resched_task p k = let t = k.tasks p in set_task k p (record t { need_resched = true })

-- dequeue_task(p, p->array); the callers hold tasks that are on an array.
abbrev pub dequeue_own : ℕ → Option ℕ → Kernel → Kernel
dequeue_own p none k = k
dequeue_own p (some a) k = dequeue_task p a k

unfoldable pub deactivate_task : ℕ → Kernel → Kernel
deactivate_task p k =
    let t = k.tasks p in
    let rq = k.rq in
    let left = set_rq k (record rq {
      nr_running = dec rq.nr_running;
      nr_uninterruptible =
          if t.state == task_uninterruptible
          then inc rq.nr_uninterruptible
          else rq.nr_uninterruptible;
    }) in
    let k' = dequeue_own p t.array left in
    let t' = k'.tasks p in set_task k' p (record t' { array = none })

module _ (env : Env) where
  -- The task with its time asleep added to the average, and the priority that follows.
  unfoldable pub rewarded : ℕ → Task → Task
  rewarded sleep_time t =
      let slept = wrap (t.sleep_avg + sleep_time) in
      let average = if ltb (max_sleep_avg env) slept then max_sleep_avg env else slept in
      let t' = record t { sleep_avg = average } in record t' { prio = effective_prio env t' }

  -- The part of activate_task that turns the time asleep into a bonus.
  unfoldable pub reward_sleep : ℕ → Kernel → Kernel
  unfolding rt_task rewarded
  reward_sleep p k =
      let t = k.tasks p in
      let sleep_time = sub k.jiffies t.sleep_timestamp in
      if not (rt_task t) && not (sleep_time == 0) then set_task k p (rewarded sleep_time t) else k

  unfoldable pub activate_task : ℕ → Kernel → Kernel
  unfolding reward_sleep
  activate_task p k =
      let array = pointer_to_my_active_prio_array (k.tasks p) k.rq in
      let k' = enqueue_task p array (reward_sleep p k) in
      let rq = k'.rq in set_rq k' (record rq { nr_running = inc rq.nr_running })

  -- The body of try_to_wake_up under `if (!p->array)`.
  unfoldable pub wake_sleeper : ℕ → Kernel → Kernel
  wake_sleeper p k =
      let rq = k.rq in
      let counted =
        if (k.tasks p).state == task_uninterruptible
        then set_rq k (record rq { nr_uninterruptible = dec rq.nr_uninterruptible })
        else k in
      let k' = activate_task p counted in
      if ltb (k'.tasks p).prio (k'.tasks k'.rq.curr).prio then resched_task k'.rq.curr k' else k'

  -- try_to_wake_up; its answer tells whether the task was asleep.
  unfoldable pub try_to_wake_up : ℕ → Kernel → Kernel × Bool
  try_to_wake_up p k = elim (k.tasks p).array [
    | none ↦
        let k' = wake_sleeper p k in
        let t = k'.tasks p in (set_task k' p (record t { state = task_running }), true)
    | some a ↦ let t = k.tasks p in (set_task k p (record t { state = task_running }), false)
  ]

  -- The sleep averages of a parent and its new child are cut.
  unfoldable pub penalise : ℕ → Kernel → Kernel
  penalise p k =
      let parent = k.tasks k.current in
      let k1 =
        set_task k k.current (record parent { sleep_avg = wrap (parent.sleep_avg * 100) / 100 }) in
      let t = k1.tasks p in
      let t' = record t { sleep_avg = wrap (t.sleep_avg * 95) / 100 } in
      set_task k1 p (record t' { prio = effective_prio env t' })

  unfoldable pub wake_up_forked_process : ℕ → Kernel → Kernel
  unfolding rt_task penalise
  wake_up_forked_process p k =
      let t = k.tasks p in
      let k1 = set_task k p (record t { state = task_running }) in
      let k2 = if rt_task (k1.tasks p) then k1 else penalise p k1 in activate_task p k2

  -- sched_exit: the child `p` of `current` has exited.
  unfoldable pub sched_exit : ℕ → Kernel → Kernel
  sched_exit p k =
      let parent = k.tasks k.current in
      let child = k.tasks p in
      let sum = wrap (parent.time_slice + child.time_slice) in
      let slice = if ltb (max_timeslice env) sum then max_timeslice env else sum in
      let parent' =
        if child.first_time_slice then record parent { time_slice = slice } else parent in
      let average = wrap (wrap (parent'.sleep_avg * 3) + child.sleep_avg) / (3 + 1) in
      set_task k k.current (
        if ltb child.sleep_avg parent'.sleep_avg
        then record parent' { sleep_avg = average }
        else parent')
