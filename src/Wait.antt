-- ===== src/Wait.antt =====
-- Waking the tasks of a wait queue: __wake_up_common to complete of sharedFolderHW2/sched.c, in the
-- build for one processor.
pub mod Invariant
pub mod Sleep
use Prim.Native.Nat.{bit_and, bit_or}
use os_hw.Base.{
  ℕ, Bool, true, false, not, ◌&&◌, Option, none, some, List, [], ◌∷◌, ◌==◌, if◌then◌else◌,
}
use os_hw.Base.Words.{inc, dec}
use os_hw.Model.{Env, Task, Kernel, task_interruptible, task_uninterruptible}
use os_hw.Runqueue.{try_to_wake_up}

-- wait_queue_t: the task that waits, and WQ_FLAG_EXCLUSIVE.
pub record Waiter : Type 0 where
  pub task : ℕ
  pub exclusive : Bool

-- struct completion
pub record Completion : Type 0 where
  pub done : ℕ
  pub wait : List Waiter

module _ (env : Env) where
  -- The task is woken if its state is one of the mode.
  unfoldable pub wake_waiter : ℕ → Waiter → Kernel → Kernel × Bool
  unfolding try_to_wake_up
  wake_waiter mode w k =
      if not (bit_and (k.tasks w.task).state mode == 0)
      then try_to_wake_up env w.task k
      else (k, false)

  -- __wake_up_common; the number of the exclusive waiters is counted down as a word.
  unfoldable pub wake_up_common : List Waiter → ℕ → ℕ → Kernel → Kernel
  unfolding wake_waiter
  wake_up_common [] mode nr_exclusive k = k
  wake_up_common (w ∷ ws) mode nr_exclusive k =
      let r = wake_waiter mode w k in
      let counted = r.1 && w.exclusive in
      let left = if counted then dec nr_exclusive else nr_exclusive in
      let rest = wake_up_common ws mode left r.0 in if counted && (left == 0) then r.0 else rest

  -- __wake_up; the queue may be null.
  unfoldable pub wake_up : Option (List Waiter) → ℕ → ℕ → Kernel → Kernel
  unfolding wake_up_common
  wake_up none mode nr_exclusive k = k
  wake_up (some q) mode nr_exclusive k = wake_up_common q mode nr_exclusive k

  unfoldable pub complete : Completion → Kernel → Completion × Kernel
  unfolding wake_up_common
  complete x k = (
    record x { done = inc x.done },
    wake_up_common x.wait (bit_or task_uninterruptible task_interruptible) 1 k,
  )
