-- ===== src/Schedule.antt =====
-- schedule of sharedFolderHW2/sched.c, in the build for one processor. The registers, the stack and
-- the memory map of the two tasks, which context_switch exchanges, are not in the model.
pub mod Invariant
pub mod Order
pub mod Ready
pub mod Calmer
pub mod Ending
use os_hw.Base.{
  ℕ, zero, suc, Bool, true, false, not, ◌&&◌, Option, none, some, ◌==◌, if◌then◌else◌, first,
}
use os_hw.Base.Words.{inc}
use os_hw.Model.{Env, Kernel, task_running, task_interruptible, set_task, set_rq}
use os_hw.Runqueue.{deactivate_task}

-- The switch on prev->state, with the timestamp that stands above it.
unfoldable pub leave : Kernel → Kernel
leave k =
    let prev = k.current in
    let t = k.tasks prev in
    let t' = record t { sleep_timestamp = k.jiffies } in
    let k' = set_task k prev t' in
    if t.state == task_running
    then k'
    else if t.state == task_interruptible && t.sigpending
    then set_task k prev (record t' { state = task_running })
    else deactivate_task prev k'

-- nr_active of the array, as a condition
abbrev pub is_active : Kernel → ℕ → Bool
is_active k a = not ((k.arrays a).nr_active == 0)

-- The choice of the array, from `array = rq->rt_short` to `array = rq->overdue`.
unfoldable pub choose_array : Kernel → Kernel × ℕ
choose_array k =
    let rq = k.rq in
    let swapped = record rq { expired = rq.active; active = rq.expired; expired_timestamp = 0 } in
    if is_active k rq.rt_short
    then (k, rq.rt_short)
    else if is_active k rq.active
    then (k, rq.active)
    else if is_active k rq.expired
    then (set_rq k swapped, rq.expired)
    else (k, rq.overdue)

-- `switch_tasks`: the flag of the last task is cleared and the next one becomes `current`.
unfoldable pub switch_tasks : ℕ → Kernel → Kernel
switch_tasks next k =
    let prev = k.current in
    let t = k.tasks prev in
    let k' = set_task k prev (record t { need_resched = false }) in
    let rq = k'.rq in
    let switched = record rq { nr_switches = inc rq.nr_switches; curr = next } in
    if prev == next then k' else record k' { rq = switched; current = next }

module _ (env : Env) where
  -- `move_on`: the first task of the first list that the bitmap shows; `none` is the address
  -- that `list_entry` makes of the head of an empty list.
  unfoldable pub first_task : ℕ → Kernel → Option ℕ
  first_task a k = let v = k.arrays a in first (v.queue (env.sched_find_first_bit v.bitmap))

  -- One pass of schedule from `need_resched:` on; `none` is a jump to no task.
  unfoldable pub pick_next : Kernel → Kernel × Option ℕ
  unfolding choose_array first_task
  pick_next k =
      let rq = k.rq in
      let (k', a) = choose_array k in
      if rq.nr_running == 0
      then (set_rq k (record rq { expired_timestamp = 0 }), some rq.idle)
      else (k', first_task a k')

  unfoldable pub schedule_pass : Kernel → Option Kernel
  unfolding leave pick_next switch_tasks
  schedule_pass k =
      let (k', next) = pick_next (leave k) in
      elim next [ none ↦ none | some n ↦ some (switch_tasks n k') ]

  -- schedule with a bound on its passes; `none` is a jump to no task, or too few passes.
  unfoldable pub schedule : ℕ → Kernel → Option Kernel
  unfolding schedule_pass
  schedule zero k = none
  schedule (suc passes) k = elim (schedule_pass k) [
    | none ↦ none
    | some k' ↦ elim (k'.tasks k'.current).need_resched [
      | true ↦ schedule passes k'
      | false ↦ some k'
    ]
  ]
