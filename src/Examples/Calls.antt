-- ===== src/Examples/Calls.antt =====
-- setscheduler, the PID hash and the system calls at concrete states.
use os_hw.Base.{ℕ, ◌≡◌, ◌≢◌, refl, inl, inr, true, some, arith, ◌↔◌}
use os_hw.Base.Int.{pos, negsuc}
use os_hw.Model.{Task, Kernel, good, value, fail, einval, eperm, sched_short, sched_rr, set_task}
use os_hw.Prio.{short_task, overdue_task, task_timeslice}
use os_hw.Tick.{refill}
use os_hw.Tick.Expiry.{refill-refill, Class, class_of}
use os_hw.Pid.{find_task_by_pid, find_process_by_pid, find_in_chain, pid_hashfn}
use os_hw.SetScheduler.{setscheduler, change_policy, checked_policy, change_classic}
use os_hw.SetScheduler.Invariant.{setscheduler-IsValid}
use os_hw.SetScheduler.Short.{
  request, IsMadeShort, setscheduler_to_short, setscheduler_to_short_answer,
}
use os_hw.SetScheduler.Outcome.{setscheduler_fail}
use os_hw.SetScheduler.Prolong.{setscheduler_prolong_negative, setscheduler_prolong_overdue}
use os_hw.Prio.{change_ms_to_jiffis}
use os_hw.Model.{invalid_requested_time}
use os_hw.Syscalls.{sys_is_short, sys_was_short}
use os_hw.Syscalls.Answers.{syscalls_found}
use os_hw.Capable.{capable}
use os_hw.Samples.{sample_env, sample_task, sample_kernel, sample_kernel-IsValid}
use os_hw.Valid.{IsValid}

-- The PID 1 is that of the task 1.
found_1 : find_process_by_pid 1 sample_kernel ≡ some 1
unfolding find_process_by_pid find_task_by_pid find_in_chain pid_hashfn
found_1 = refl

not_idle_task : (p : ℕ) → find_process_by_pid 1 sample_kernel ≡ some p → p ≢ sample_kernel.rq.idle
unfolding find_process_by_pid find_task_by_pid find_in_chain pid_hashfn
not_idle_task p e h = cc

setscheduler-IsValid_example :
    IsValid
      (setscheduler sample_env
        (pos 1)
        (pos sched_short)
        (good (request (pos 0) (pos 1000)))
        sample_kernel).0
setscheduler-IsValid_example =
    setscheduler-IsValid sample_env (pos 1) (pos sched_short) (good (request (pos 0) (pos 1000)))
      sample_kernel sample_kernel-IsValid not_idle_task

setscheduler_to_short_example :
    let r =
      setscheduler sample_env
        (pos 1)
        (pos sched_short)
        (good (request (pos 0) (pos 1000)))
        sample_kernel in
    (r.1 ≡ value (pos 0)) × IsMadeShort sample_env sample_kernel 1 100 r.0
setscheduler_to_short_example =
    setscheduler_to_short sample_env 1 1 1000 (pos 0) sample_kernel sample_kernel-IsValid found_1
      (λ e. cc) refl (omega arith) (omega arith) (omega arith) (inl refl)

setscheduler_to_short_answer_example :
    (setscheduler sample_env
      (pos 1)
      (pos sched_short)
      (good (request (pos 0) (pos 3001)))
      sample_kernel).1
    ≡ fail einval
setscheduler_to_short_answer_example =
    setscheduler_to_short_answer sample_env 1 1 3001 (pos 0) sample_kernel found_1 refl
      (omega arith)

real_time_refused :
    (setscheduler sample_env
      (pos 1)
      (pos sched_rr)
      (good (request (pos 5) (pos 0)))
      sample_kernel).1
    ≡ fail eperm
unfolding setscheduler change_policy checked_policy change_classic find_process_by_pid
    find_task_by_pid find_in_chain pid_hashfn capable
real_time_refused = refl

setscheduler_fail_example :
    (setscheduler sample_env
      (pos 1)
      (pos sched_rr)
      (good (request (pos 5) (pos 0)))
      sample_kernel).0
    ≡ sample_kernel
setscheduler_fail_example =
    setscheduler_fail sample_env (pos 1) (pos sched_rr) (good (request (pos 5) (pos 0)))
      sample_kernel eperm real_time_refused

-- A SHORT task of 100 jiffies that has used 40 of them.
abbrev short_sample : Task
short_sample = record (sample_task 1) {
  policy = sched_short;
  requested_time = pos 100;
  time_slice = 60;
  i_was_short = 1;
}

abbrev short_kernel : Kernel
short_kernel = set_task sample_kernel 1 short_sample

found_short : find_process_by_pid 1 short_kernel ≡ some 1
unfolding find_process_by_pid find_task_by_pid find_in_chain pid_hashfn
found_short = refl

thousand_back : change_ms_to_jiffis sample_env (negsuc 999) ≡ negsuc 99
unfolding change_ms_to_jiffis
thousand_back = refl

setscheduler_prolong_negative_example :
    let r =
      setscheduler sample_env
        (pos 1)
        (pos sched_short)
        (good (request (pos 0) (negsuc 999)))
        short_kernel in
    (r.1 ≡ value (pos 0)) × ((r.0.tasks 1).requested_time ≡ negsuc 99)
setscheduler_prolong_negative_example =
    setscheduler_prolong_negative sample_env 1 1 999 99 (pos sched_short) (pos 0) short_kernel
      found_short refl (inr refl) (inl refl) thousand_back (omega arith)

-- The task has used up its 100 jiffies and is overdue, with a slice of 200.
abbrev overdue_kernel : Kernel
overdue_kernel =
    set_task sample_kernel 1 (record short_sample { i_am_overdue = 1; time_slice = 200 })

found_overdue : find_process_by_pid 1 overdue_kernel ≡ some 1
unfolding find_process_by_pid find_task_by_pid find_in_chain pid_hashfn
found_overdue = refl

setscheduler_prolong_overdue_example :
    setscheduler sample_env (pos 1) (negsuc 0) (good (request (pos 0) (pos 1500))) overdue_kernel
    ≡ (overdue_kernel, fail einval)
setscheduler_prolong_overdue_example =
    setscheduler_prolong_overdue sample_env 1 1 1500 100 100 (negsuc 0) (pos 0) overdue_kernel
      found_overdue refl refl refl (omega arith) (omega arith) (omega arith) (inl (0, refl))
      (omega arith)

short_sample_short : short_task short_sample ≡ true
unfolding short_task
short_sample_short = refl

refill-refill_example :
    let back = refill sample_env (refill sample_env short_sample) in
    (class_of back ≡ Class.other)
    × (back.static_prio ≡ 120)
    × (back.requested_time ≡ pos invalid_requested_time)
    × (back.i_was_short ≡ 1)
    × (back.i_am_overdue ≡ 0)
    × (back.time_slice ≡ task_timeslice sample_env short_sample)
refill-refill_example = refill-refill sample_env short_sample short_sample_short

found_task : find_task_by_pid 1 short_kernel ≡ some 1
unfolding find_task_by_pid find_in_chain pid_hashfn
found_task = refl

syscalls_found_example :
    let t = short_kernel.tasks 1 in
    ((sys_is_short (pos 1) short_kernel ≡ value (pos 1)) ↔ (short_task t ≡ true))
    × ((sys_is_short (pos 1) short_kernel ≡ value (pos 0)) ↔ (overdue_task t ≡ true))
    × ((sys_is_short (pos 1) short_kernel ≡ fail einval)
        ↔ (sys_was_short (pos 1) short_kernel ≢ fail einval))
syscalls_found_example = syscalls_found short_kernel 1 1 found_task (omega arith)
