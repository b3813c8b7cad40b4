-- ===== src/Syscalls/Answers.antt =====
-- The answers of is_short, short_remaining_time and was_short along the life of a task.
use os_hw.Base.{ℕ, ◌*◌, ◌/◌, ◌≤◌, ◌<◌, ◌≡◌, ◌≢◌, ◌↔◌, refl, true, none, some, arith}
use os_hw.Base.Int.{pos, negsuc}
use os_hw.Model.{Env, Kernel, value, fail, esrch, einval}
use os_hw.Prio.{short_task, overdue_task, change_jiffis_to_ms}
use os_hw.Pid.{find_task_by_pid}
use os_hw.SetScheduler.Short.{IsMadeShort}
use os_hw.Syscalls.{
  with_process, is_short_of, remaining_time_of, was_short_of, sys_is_short,
  sys_short_remaining_time, sys_was_short,
}

-- The three calls answer EINVAL for a negative PID, and ESRCH for a PID that the hash does not
-- find.
syscalls_missing :
    (env : Env) (k : Kernel) (pid : ℕ) (n : ℕ)
    → find_task_by_pid pid k ≡ none
    → (sys_is_short (negsuc n) k ≡ fail einval)
      × (sys_short_remaining_time env (negsuc n) k ≡ fail einval)
      × (sys_was_short (negsuc n) k ≡ fail einval)
      × (sys_is_short (pos pid) k ≡ fail esrch)
      × (sys_short_remaining_time env (pos pid) k ≡ fail esrch)
      × (sys_was_short (pos pid) k ≡ fail esrch)
unfolding sys_is_short sys_short_remaining_time sys_was_short
syscalls_missing env k pid n e = rw (e, with_process) (refl, refl, refl, refl, refl, refl)

-- Of a task that the PID hash finds and whose mark iAmOverdue is 0 or 1, is_short answers 1
-- exactly if it is SHORT and not overdue and 0 exactly if it is overdue, and refuses with EINVAL
-- exactly if was_short does not.
pub syscalls_found :
    (k : Kernel) (pid p : ℕ)
    → find_task_by_pid pid k ≡ some p
    → (k.tasks p).i_am_overdue ≤ 1
    → let t = k.tasks p in
      ((sys_is_short (pos pid) k ≡ value (pos 1)) ↔ (short_task t ≡ true))
      × ((sys_is_short (pos pid) k ≡ value (pos 0)) ↔ (overdue_task t ≡ true))
      × ((sys_is_short (pos pid) k ≡ fail einval) ↔ (sys_was_short (pos pid) k ≢ fail einval))
unfolding sys_is_short sys_was_short short_task overdue_task is_short_of was_short_of
syscalls_found k pid p e l = rw (e, with_process) (ground arith)

module _ (env : Env) where
  -- Of a task as setscheduler makes it SHORT, with j jiffies such that j * 1000 is below 2 ^ 31,
  -- is_short answers 1, was_short refuses with EINVAL, and short_remaining_time answers j * 1000 /
  -- HZ.
  IsMadeShort-answers :
      (k k' : Kernel) (pid p j : ℕ)
      → IsMadeShort env k p j k'
      → find_task_by_pid pid k' ≡ some p
      → j * 1000 < 2147483648
      → (sys_is_short (pos pid) k' ≡ value (pos 1))
        × (sys_was_short (pos pid) k' ≡ fail einval)
        × (sys_short_remaining_time env (pos pid) k' ≡ value (pos (j * 1000 / env.hz)))
  unfolding sys_is_short sys_was_short sys_short_remaining_time short_task change_jiffis_to_ms
      is_short_of was_short_of remaining_time_of
  IsMadeShort-answers k k' pid p j h e l = rw (e, with_process) (ground (arith, h.policy, h.slice))
