-- ===== src/Examples/Programs.antt =====
-- The system calls as a program sees them, and a set of signals as it is written, at a concrete machine.
use os_hw.Base.{ℕ, ◌≤◌, ◌<◌, ◌≡◌, Bool, true, arith, ◌==◌, if◌then◌else◌}
use os_hw.Base.Int.{pos}
use os_hw.Model.{Kernel, Errno, eperm, esrch, efault, einval, eagain, enomem, sched_short}
use os_hw.Prio.{change_jiffis_to_ms}
use os_hw.Samples.{sample_env, sample_task, sample_kernel}
use os_hw.Signals.Rendered.{render_sigset_t, read_member, read_member-render_sigset_t}
use os_hw.Syscalls.{sys_is_short, sys_short_remaining_time, sys_was_short}
use os_hw.Wrappers.{is_short, short_remaining_time, was_short}
use os_hw.Wrappers.Answers.{seen, wrappers_lem}

abbrev number : Errno → ℕ
number eperm = 1
number esrch = 3
number eagain = 11
number enomem = 12
number efault = 14
number einval = 22

numbers : (e : Errno) → (1 ≤ number e) × (number e ≤ 125)
numbers eperm = (omega arith, omega arith)
numbers esrch = (omega arith, omega arith)
numbers eagain = (omega arith, omega arith)
numbers enomem = (omega arith, omega arith)
numbers efault = (omega arith, omega arith)
numbers einval = (omega arith, omega arith)

-- Task 2 is SHORT.
abbrev with_short : Kernel
with_short = record sample_kernel {
  tasks = λ p.
      if p == 2
      then record (sample_task 2) { policy = sched_short; i_was_short = 1 }
      else sample_task p;
}

small_times :
    (p : ℕ)
    → ((with_short.tasks p).i_was_short < 2147483648)
      × (change_jiffis_to_ms sample_env (with_short.tasks p).time_slice < 2147483648)
unfolding change_jiffis_to_ms
small_times p = ground arith

wrappers_lem_example :
    (is_short number (pos 2) with_short (pos 0)
      ≡ seen number (sys_is_short (pos 2) with_short) (pos 0))
    × ((was_short number (pos 2) with_short (pos 0)
          ≡ seen number (sys_was_short (pos 2) with_short) (pos 0))
        × (short_remaining_time number sample_env (pos 2) with_short (pos 0)
            ≡ seen number (sys_short_remaining_time sample_env (pos 2) with_short) (pos 0)))
wrappers_lem_example = wrappers_lem number numbers sample_env with_short (pos 2) (pos 0) small_times

abbrev two_signals : ℕ → Bool
two_signals sig = if sig == 9 then true else sig == 15

read_member-render_sigset_t_example :
    read_member (render_sigset_t 16 two_signals) 15 ≡ two_signals 15
read_member-render_sigset_t_example =
    read_member-render_sigset_t 16 two_signals 15 (omega arith) (omega arith)
