-- ===== src/Samples.antt =====
-- A concrete machine on which the theorems are tried: the timer of i386, a search of the bitmap, and
-- a runqueue that the operations fill.
use os_hw.Base.{
  ℕ, zero, suc, ◌+◌, ◌≤◌, ◌<◌, ◌≡◌, refl, inl, inr, Bool, true, false, none, [], arith, ◌==◌,
  if◌then◌else◌, count, sum_below, ==-cases, ◌∷◌,
}
use os_hw.Base.Int.{pos}
use os_hw.Model.{Env, Task, PrioArray, Kernel, max_prio, task_running, sched_other}
use os_hw.Prio.{overdue_task}
use os_hw.Valid.{IsValid}

-- The first of the bits i ... i + n - 1 that is set, or i + n.
unfoldable pub first_bit : ℕ → ℕ → (ℕ → Bool) → ℕ
first_bit zero i m = i
first_bit (suc n) i m = let rest = first_bit n (suc i) m in if m i then i else rest

first_bit_lem :
    (n i j : ℕ) (m : ℕ → Bool)
    → i ≤ j
    → j < i + n
    → m j ≡ true
    → (m (first_bit n i m) ≡ true) × (first_bit n i m ≤ j)
unfolding first_bit
first_bit_lem zero i j m l u e = absurd (omega arith)
first_bit_lem (suc n) i j m l u e = elim (==-cases i j) [
  | inl same ↦ ground arith
  | inr less ↦ ground (arith, first_bit_lem n (suc i) j m)
]

pub find_set_lem :
    (m : ℕ → Bool) (i : ℕ)
    → i ≤ max_prio
    → m i ≡ true
    → (m (first_bit 141 0 m) ≡ true) × (first_bit 141 0 m ≤ i)
find_set_lem m i l e = first_bit_lem 141 0 i m (omega arith) (omega arith) e

abbrev pub sample_env : Env
sample_env = record {
  hz = 100;
  hz_pos = omega arith;
  sched_find_first_bit = first_bit 141 0;
  find_set = find_set_lem;
  cap_raised = λ set cap. set == 1;
}

-- A task of nice value 0 that is on no array.
abbrev pub sample_task : ℕ → Task
sample_task pid = record {
  state = task_running;
  flags = 0;
  sigpending = false;
  need_resched = false;
  prio = 120;
  static_prio = 120;
  array = none;
  sleep_avg = 0;
  sleep_timestamp = 0;
  policy = sched_other;
  time_slice = 15;
  first_time_slice = false;
  pid = pid;
  pgrp = pid;
  session = pid;
  tgid = pid;
  p_opptr = 1;
  p_pptr = 1;
  rt_priority = 0;
  uid = 500;
  euid = 500;
  cap_effective = 0;
  ptrace = 0;
  exit_signal = 0;
  pdeath_signal = 0;
  leader = false;
  did_exec = false;
  swappable = false;
  cpus_allowed = 1;
  cpus_allowed_mask = 1;
  requested_time = pos 0;
  i_am_overdue = 0;
  i_was_short = 0;
  overdue_static_prio = 0;
  just_got_forked = false;
}

abbrev pub sample_array : PrioArray
sample_array = record { nr_active = 0; bitmap = λ i. i == max_prio; queue = λ i. [] }

-- Task 0 is the idle task, and runs; the chains of the PID hash hold the tasks 1 to 3.
abbrev pub sample_kernel : Kernel
sample_kernel = record {
  tasks = sample_task;
  arrays = λ a. sample_array;
  rq = record {
    nr_running = 0;
    nr_switches = 0;
    expired_timestamp = 0;
    nr_uninterruptible = 0;
    curr = 0;
    idle = 0;
    active = 0;
    expired = 1;
    rt_short = 2;
    overdue = 3;
  };
  current = 0;
  jiffies = 1000;
  task_list = [];
  pidhash = λ h. if h == 0 then [] else h ∷ [];
  kstat = record { per_cpu_user = 0; per_cpu_nice = 0; per_cpu_system = 0 };
}

pub sample_kernel-IsValid : IsValid sample_kernel
unfolding count sum_below overdue_task
sample_kernel-IsValid = record {
  sound = record {
    sync = record {
      placed = λ a i q. refl;
      marked = λ a i l. ground arith;
      delimiter = λ a. refl;
      counted = λ a. refl;
      ranged = λ q a o e. cc;
    };
    homed = λ q a o e. cc;
    each = λ q. ground arith;
    queueable = λ q h. omega arith;
    arrays = ground arith;
    curr = refl;
    idle = refl;
  };
  running = refl;
}
