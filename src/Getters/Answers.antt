-- ===== src/Getters/Answers.antt =====
-- What sched_getscheduler and sched_getparam answer after sched_setscheduler.
use os_hw.Base.{ℕ, ◌*◌, ◌/◌, ◌≤◌, ◌≡◌, some, arith}
use os_hw.Base.Int.{pos}
use os_hw.Base.Words.{wrap}
use os_hw.Model.{Env, Kernel, SchedParam, good, value, sched_short}
use os_hw.Getters.{sys_sched_getscheduler, sys_sched_getparam, param_of}
use os_hw.Pid.{find_process_by_pid}
use os_hw.Prio.{short_task, change_int_jiffis_to_ms}
use os_hw.SetScheduler.Short.{request, IsMadeShort}

module _ (env : Env) where
  -- Of a task as setscheduler makes it SHORT, with j jiffies such that j * 1000 is at most 2 ^ 31
  -- - 1, sched_getscheduler answers the policy SHORT, and sched_getparam with a good pointer
  -- answers 0 and writes the real-time priority of the task and the time j * 1000 / HZ.
  getparam-IsMadeShort :
      (pid p j : ℕ) (stack before : SchedParam) (k k' : Kernel)
      → IsMadeShort env k p j k'
      → find_process_by_pid pid k' ≡ some p
      → j * 1000 ≤ 2147483647
      → (sys_sched_getscheduler (pos pid) k' ≡ value (pos sched_short))
        × (sys_sched_getparam env stack (pos pid) (good before) k' ≡ (
          value (pos 0),
          some (request (pos (k'.tasks p).rt_priority) (pos (j * 1000 / env.hz))),
        ))
  unfolding sys_sched_getscheduler sys_sched_getparam param_of short_task change_int_jiffis_to_ms
  getparam-IsMadeShort pid p j stack before k k' h e l =
      let word : wrap (j * 1000) ≡ j * 1000 = omega arith in
      rw (e, sys_sched_getparam) (ground (arith, h.policy, h.requested, word))
