-- ===== src/Machine.antt =====
-- The scheduler as a machine: the steps that the kernel takes between two points at which its locks
-- are free, in any order, and the states that they lead to from the start.
pub mod Invariant
use os_hw.Base.{ℕ, ◌<◌, ◌≡◌, ◌≢◌, ◌⊎◌, Bool, some, List}
use os_hw.Base.Int.{ℤ, pos_part}
use os_hw.Base.Words.{word_size}
use os_hw.Boot.{sched_init, init_idle}
use os_hw.Boot.Blank.{IsBooting}
use os_hw.Model.{Env, Kernel, SchedParam, UserPointer, set_task}
use os_hw.Nice.{set_user_nice}
use os_hw.Pid.{find_process_by_pid}
use os_hw.Queue.Sync.{total}
use os_hw.Runqueue.{try_to_wake_up}
use os_hw.Schedule.{leave, schedule_pass}
use os_hw.Schedule.Invariant.{CanLeave}
use os_hw.SetScheduler.{setscheduler}
use os_hw.Tick.{scheduler_tick}
use os_hw.Wait.{Waiter, wake_up_common}
use os_hw.Wait.Invariant.{Awaited}
use os_hw.Yield.{yield_on}

-- A task that is named in a call is not the idle task.
pub data Step (env : Env) : Kernel → Kernel → Type 0 where
  -- the timer counts, and calls scheduler_tick
  clock : (k : Kernel) (now : ℕ) → Step env k (record k { jiffies = now })
  tick :
      (k : Kernel) (busy : Bool) (user_tick system a : ℕ)
      → (k.current ≡ k.rq.idle) ⊎ ((k.tasks k.current).array ≡ some a)
      → Step env k (scheduler_tick env busy user_tick system k)
  -- the running task sets its state before it calls schedule
  set_state :
      (k : Kernel) (state : ℕ)
      → Step env k (set_task k k.current (record (k.tasks k.current) { state = state }))
  pass :
      (k k' : Kernel)
      → CanLeave k
      → ((a : ℕ) → total ((leave k).arrays a) < word_size)
      → schedule_pass env k ≡ some k'
      → Step env k k'
  yield :
      (k : Kernel) (a : ℕ)
      → (k.tasks k.current).array ≡ some a
      → Step env k (yield_on env k.current a k)
  wake : (k : Kernel) (p : ℕ) → p ≢ k.rq.idle → Step env k (try_to_wake_up env p k).0
  wake_all :
      (k : Kernel) (ws : List Waiter) (mode nr_exclusive : ℕ)
      → Awaited k.rq.idle ws
      → Step env k (wake_up_common env ws mode nr_exclusive k)
  set_policy :
      (k : Kernel) (pid policy : ℤ) (param : UserPointer SchedParam)
      → ((p : ℕ) → find_process_by_pid (pos_part pid) k ≡ some p → p ≢ k.rq.idle)
      → Step env k (setscheduler env pid policy param k).0
  set_nice : (k : Kernel) (p : ℕ) (nice : ℤ) → p ≢ k.rq.idle → Step env k (set_user_nice p nice k)

-- The states that can be reached from the setup.
pub data Reach (env : Env) : Kernel → Type 0 where
  start : (k : Kernel) → IsBooting k → Reach env (init_idle k.current (sched_init env k))
  then_step : (k k' : Kernel) → Reach env k → Step env k k' → Reach env k'
