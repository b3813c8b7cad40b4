-- ===== src/Syscalls.antt =====
-- The three system calls of sharedFolderHW2/hw2_syscalls.c.
pub mod Answers
use os_hw.Base.{none, some, ◌==◌, if◌then◌else◌}
use os_hw.Base.Int.{ℤ, pos, negsuc}
use os_hw.Base.Words.{to_int}
use os_hw.Model.{Env, Task, Kernel, Retval, value, fail, esrch, einval, sched_short}
use os_hw.Prio.{change_jiffis_to_ms}
use os_hw.Pid.{find_task_by_pid}

-- GET_PROCESS_AND_RETURN_IF_MISSING, and the rest of the call on the task that it finds.
unfoldable pub with_process : ℤ → Kernel → (Task → Retval) → Retval
with_process (negsuc n) k call = fail einval
with_process (pos pid) k call = elim (find_task_by_pid pid k) [
  | none ↦ fail esrch
  | some p ↦ call (k.tasks p)
]

unfoldable pub is_short_of : Task → Retval
is_short_of t =
    if t.policy == sched_short
    then if t.i_am_overdue == 0 then value (pos 1) else value (pos 0)
    else fail einval

unfoldable pub sys_is_short : ℤ → Kernel → Retval
unfolding with_process is_short_of
sys_is_short pid k = with_process pid k is_short_of

unfoldable pub remaining_time_of : Env → Task → Retval
remaining_time_of env t =
    if t.policy == sched_short
    then value (to_int (change_jiffis_to_ms env t.time_slice))
    else fail einval

unfoldable pub sys_short_remaining_time : Env → ℤ → Kernel → Retval
unfolding with_process remaining_time_of
sys_short_remaining_time env pid k = with_process pid k (remaining_time_of env)

unfoldable pub was_short_of : Task → Retval
was_short_of t = if t.policy == sched_short then fail einval else value (pos t.i_was_short)

unfoldable pub sys_was_short : ℤ → Kernel → Retval
unfolding with_process was_short_of
sys_was_short pid k = with_process pid k was_short_of
