-- ===== src/Getters.antt =====
-- The calls of sharedFolderHW2/sched.c that ask for the parameters of a task or of a policy.
pub mod Answers
use Prim.Native.Nat.{bit_and}
use os_hw.Base.{ℕ, ◌-◌, Option, none, some, ◌==◌, if◌then◌else◌, ◌||◌}
use os_hw.Base.Int.{ℤ, pos, negsuc}
use os_hw.Model.{
  Env, Task, Kernel, SchedParam, UserPointer, null, bad, good, Retval, value, fail, einval, esrch,
  efault, max_user_rt_prio, sched_fifo, sched_rr, sched_other,
}
use os_hw.Prio.{short_task, change_int_jiffis_to_ms, task_timeslice}
use os_hw.Pid.{find_process_by_pid}

unfoldable pub sys_sched_getscheduler : ℤ → Kernel → Retval
sys_sched_getscheduler (negsuc n) k = fail einval
sys_sched_getscheduler (pos pid) k = elim (find_process_by_pid pid k) [
  | none ↦ fail esrch
  | some p ↦ value (pos (k.tasks p).policy)
]

-- The struct that sys_sched_getparam fills; `stack` is what the place held before.
unfoldable pub param_of : Env → SchedParam → Task → SchedParam
unfolding short_task change_int_jiffis_to_ms
param_of env stack t =
    let lp = record stack { sched_priority = pos t.rt_priority } in
    if short_task t
    then record lp { requested_time = change_int_jiffis_to_ms env t.requested_time }
    else lp

-- sys_sched_getparam: what it returns, and what it writes to user space.
unfoldable pub sys_sched_getparam :
    Env → SchedParam → ℤ → UserPointer SchedParam → Kernel → Retval × Option SchedParam
unfolding param_of
sys_sched_getparam env stack (negsuc n) param k = (fail einval, none)
sys_sched_getparam env stack (pos pid) null k = (fail einval, none)
sys_sched_getparam env stack (pos pid) bad k = elim (find_process_by_pid pid k) [
  | none ↦ (fail esrch, none)
  | some p ↦ (fail efault, none)
]
sys_sched_getparam env stack (pos pid) (good before) k = elim (find_process_by_pid pid k) [
  | none ↦ (fail esrch, none)
  | some p ↦ (value (pos 0), some (param_of env stack (k.tasks p)))
]

unfoldable pub sys_sched_get_priority_max : ℤ → Retval
sys_sched_get_priority_max (negsuc n) = fail einval
sys_sched_get_priority_max (pos policy) =
    if (policy == sched_fifo) || (policy == sched_rr)
    then value (pos (max_user_rt_prio - 1))
    else if policy == sched_other
    then value (pos 0)
    else fail einval

unfoldable pub sys_sched_get_priority_min : ℤ → Retval
sys_sched_get_priority_min (negsuc n) = fail einval
sys_sched_get_priority_min (pos policy) =
    if (policy == sched_fifo) || (policy == sched_rr)
    then value (pos 1)
    else if policy == sched_other
    then value (pos 0)
    else fail einval

-- The jiffies of which sys_sched_rr_get_interval makes a timespec.
unfoldable pub rr_interval_of : Env → Task → ℕ
unfolding task_timeslice
rr_interval_of env t = if bit_and t.policy sched_fifo == 0 then task_timeslice env t else 0

-- sys_sched_rr_get_interval: what it returns, and the jiffies that it writes as a timespec.
unfoldable pub sys_sched_rr_get_interval : Env → ℤ → UserPointer ℕ → Kernel → Retval × Option ℕ
unfolding rr_interval_of
sys_sched_rr_get_interval env (negsuc n) interval k = (fail einval, none)
sys_sched_rr_get_interval env (pos pid) interval k = elim (find_process_by_pid pid k) [
  | none ↦ (fail esrch, none)
  | some p ↦ elim interval [
    | null ↦ (fail efault, none)
    | bad ↦ (fail efault, none)
    | good before ↦ (value (pos 0), some (rr_interval_of env (k.tasks p)))
  ]
]
