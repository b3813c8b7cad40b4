-- ===== src/Balance/State.antt =====
-- The build of sharedFolderHW2/sched.c for several processors: a runqueue for each, and what the code
-- calls of the rest of the kernel.
use os_hw.Base.{ℕ, Bool, List, upd}
use os_hw.Model.{Kernel}

-- struct runqueue; `active` and `expired` are numbers of arrays, which are different for each
-- processor. Counts that C keeps in an `int` are below 2 ^ 31.
pub record SmpRq : Type 0 where
  pub nr_running : ℕ
  pub nr_switches : ℕ
  pub expired_timestamp : ℕ
  pub nr_uninterruptible : ℕ
  pub curr : ℕ
  pub idle : ℕ
  pub active : ℕ
  pub expired : ℕ
  pub rt_short : ℕ
  pub overdue : ℕ
  pub prev_nr_running : ℕ → ℕ
  pub migration_thread : ℕ
  -- the tasks of the requests on the queue
  pub migration_queue : List ℕ

-- The tasks, arrays and clock are those of the kernel, and `current` is that of the processor that
-- runs; its one runqueue is not used.
pub record Smp : Type 0 where
  pub kernel : Kernel
  pub rqs : ℕ → SmpRq
  -- the field cpu of every task
  pub cpu : ℕ → ℕ
  -- the processors that an interrupt has been sent to
  pub sent : List ℕ

pub record SmpEnv : Type 0 where
  pub smp_num_cpus : ℕ
  pub cpu_logical_map : ℕ → ℕ
  pub cpu_online_map : ℕ
  pub cache_decay_ticks : ℕ
  pub hz : ℕ
  pub sched_find_first_bit : (ℕ → Bool) → ℕ
  -- the map, the size and the first bit
  pub find_next_bit : (ℕ → Bool) → ℕ → ℕ → ℕ
  -- the least bit that is set in a word
  pub ffs : ℕ → ℕ
  -- whether the lock of a processor's runqueue is free, and what others do until it is
  pub spin_trylock : ℕ → Smp → Bool
  pub spin_lock : ℕ → Smp → Smp
  -- on the semaphore of the request for a task: down comes back after the migration thread's up
  pub down : ℕ → Smp → Smp
  pub up : ℕ → Smp → Smp
  pub cpu_relax : Smp → Smp
  pub wake_up_process : ℕ → Smp → Smp

abbrev pub set_smp_rq : Smp → ℕ → SmpRq → Smp
set_smp_rq m c rq = record m { rqs = upd m.rqs c rq }
