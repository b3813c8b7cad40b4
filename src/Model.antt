-- ===== src/Model.antt =====
-- The state of the scheduler: sharedFolderHW2/sched.h (struct task_struct, the scheduling policies)
-- and the data structures at the top of sharedFolderHW2/sched.c. A pointer to a task is the task's
-- number. A pointer to one of the runqueue's four priority arrays is a number below 4: 0 and 1 are
-- `arrays[2]`, 2 and 3 are `shortArrays[2]`. A `list_t` of tasks is the list of their numbers.
use os_hw.Base.{ℕ, ◌+◌, ◌≡◌, ◌≤◌, ◌<◌, Bool, true, Option, List, upd}
use os_hw.Base.Int.{ℤ}

abbrev pub max_user_rt_prio : ℕ
max_user_rt_prio = 100

abbrev pub max_rt_prio : ℕ
max_rt_prio = max_user_rt_prio

abbrev pub max_prio : ℕ
max_prio = max_rt_prio + 40

-- The capabilities of <linux/capability.h> that the code asks for.
pub data Capability : Type 0 where
  cap_sys_nice cap_sys_admin cap_sys_resource : Capability

-- What the code takes from the architecture and from other headers.
pub record Env : Type 0 where
  -- HZ of <asm/param.h>: clock ticks in a second.
  pub hz : ℕ
  pub hz_pos : 0 < hz
  -- The function of the architecture: the least index of a bit that is set, in a map of
  -- MAX_PRIO + 1 bits with one that is.
  pub sched_find_first_bit : (ℕ → Bool) → ℕ
  pub find_set :
      (m : ℕ → Bool) (i : ℕ)
      → i ≤ max_prio
      → m i ≡ true
      → (m (sched_find_first_bit m) ≡ true) × (sched_find_first_bit m ≤ i)
  -- <linux/capability.h>: is the capability in the set?
  pub cap_raised : ℕ → Capability → Bool

-- struct task_struct, as far as the scheduler and fork read it.
pub record Task : Type 0 where
  pub state : ℕ
  pub flags : ℕ
  pub sigpending : Bool
  pub need_resched : Bool
  pub prio : ℕ
  pub static_prio : ℕ
  -- the array that holds the task
  pub array : Option ℕ
  pub sleep_avg : ℕ
  pub sleep_timestamp : ℕ
  pub policy : ℕ
  pub time_slice : ℕ
  pub first_time_slice : Bool
  pub pid : ℕ
  pub pgrp : ℕ
  pub session : ℕ
  pub tgid : ℕ
  pub p_opptr : ℕ
  pub p_pptr : ℕ
  pub rt_priority : ℕ
  pub uid : ℕ
  pub euid : ℕ
  pub cap_effective : ℕ
  pub ptrace : ℕ
  pub exit_signal : ℕ
  pub pdeath_signal : ℕ
  pub leader : Bool
  pub did_exec : Bool
  pub swappable : Bool
  pub cpus_allowed : ℕ
  pub cpus_allowed_mask : ℕ
  -- the fields that the SCHED_SHORT policy adds
  pub requested_time : ℤ
  pub i_am_overdue : ℕ
  pub i_was_short : ℕ
  pub overdue_static_prio : ℕ
  pub just_got_forked : Bool

-- struct prio_array
pub record PrioArray : Type 0 where
  pub nr_active : ℕ
  pub bitmap : ℕ → Bool
  pub queue : ℕ → List ℕ

-- struct runqueue of a uniprocessor build; the lock is held throughout each step of the model
pub record Runqueue : Type 0 where
  pub nr_running : ℕ
  pub nr_switches : ℕ
  pub expired_timestamp : ℕ
  pub nr_uninterruptible : ℕ
  pub curr : ℕ
  pub idle : ℕ
  pub active : ℕ
  pub expired : ℕ
  pub rt_short : ℕ
  pub overdue : ℕ

-- The counters of kstat for the one CPU.
pub record Kstat : Type 0 where
  pub per_cpu_user : ℕ
  pub per_cpu_nice : ℕ
  pub per_cpu_system : ℕ

-- An error number of <asm/errno.h>.
pub data Errno : Type 0 where
  eperm esrch efault einval eagain enomem : Errno

-- What a system call returns: a value, or an error number with its sign changed.
pub data Retval : Type 0 where
  value : ℤ → Retval
  fail : Errno → Retval

-- A pointer from user space: null, one that copy_from_user fails on, or one to a value.
pub data UserPointer {ℓ} (A : Type ℓ) : Type ℓ where
  null bad : UserPointer A
  good : A → UserPointer A

-- struct sched_param
pub record SchedParam : Type 0 where
  pub sched_priority : ℤ
  pub requested_time : ℤ

-- The kernel's memory: the tasks, the four arrays, the runqueue, `current`, the clock, the list of
-- all tasks, the chains of the PID hash and the time statistics.
pub record Kernel : Type 0 where
  pub tasks : ℕ → Task
  pub arrays : ℕ → PrioArray
  pub rq : Runqueue
  pub current : ℕ
  pub jiffies : ℕ
  pub task_list : List ℕ
  pub pidhash : ℕ → List ℕ
  pub kstat : Kstat

abbrev pub task_running : ℕ
task_running = 0

abbrev pub task_interruptible : ℕ
task_interruptible = 1

abbrev pub task_uninterruptible : ℕ
task_uninterruptible = 2

abbrev pub sched_other : ℕ
sched_other = 0

abbrev pub sched_fifo : ℕ
sched_fifo = 1

abbrev pub sched_rr : ℕ
sched_rr = 2

abbrev pub sched_short : ℕ
sched_short = 5

abbrev pub min_requested_time : ℕ
min_requested_time = 1

abbrev pub overdue_prio : ℕ
overdue_prio = 139

abbrev pub invalid_requested_time : ℕ
invalid_requested_time = 0

abbrev pub set_task : Kernel → ℕ → Task → Kernel
set_task k p t = record k { tasks = upd k.tasks p t }

abbrev pub set_array : Kernel → ℕ → PrioArray → Kernel
set_array k a v = record k { arrays = upd k.arrays a v }

abbrev pub set_rq : Kernel → Runqueue → Kernel
set_rq k rq = record k { rq = rq }
