-- ===== src/Examples/Forking.antt =====
-- Forks at concrete states.
use os_hw.Queue.{fork_pending, enqueue_task}
use os_hw.Queue.Forked.{enqueue_task_forked}
use os_hw.Base.{
  ℕ, ◌≤◌, true, false, some, [], ◌∷◌, ◌++◌, ◌&&◌, ◌==◌, upd, count, remove, ◌+◌, ◌≡◌, refl, arith,
  if◌then◌else◌,
}
use os_hw.Fork.{share_timeslice}
use os_hw.Fork.Slices.{share_timeslice_sum}
use os_hw.Model.{Task, Kernel, sched_short}
use os_hw.Prio.{overdue_task}
use os_hw.Samples.{sample_env, sample_task, sample_array, sample_kernel}

-- An overdue task with 20 jiffies left.
abbrev late : Task
late = record (sample_task 4) { policy = sched_short; i_am_overdue = 1; time_slice = 20 }

-- It forks the task 5.
abbrev late_kernel : Kernel
late_kernel = record sample_kernel { current = 4; tasks = upd (upd sample_task 4 late) 5 late }

share_timeslice_sum_example :
    (k' : Kernel) × (share_timeslice sample_env false 5 late_kernel ≡ some k')
    × ((k'.tasks 4).time_slice + (k'.tasks 5).time_slice ≡ (if overdue_task late then 40 else 20))
share_timeslice_sum_example =
    share_timeslice_sum sample_env false 5 late_kernel (omega arith) (omega arith) refl
      (omega arith) (omega arith)

-- The SHORT task 4 has forked, and stands with task 6 on a list; its child 5 is not yet on one.
abbrev forking : Task
forking = record (sample_task 4) { policy = sched_short; array = some 2; just_got_forked = true }

abbrev forked_tasks : ℕ → Task
forked_tasks =
    upd (upd sample_task 4 forking) 5 (record (sample_task 5) { policy = sched_short; p_opptr = 4 })

abbrev forked_kernel : Kernel
forked_kernel = record sample_kernel {
  current = 4;
  tasks = forked_tasks;
  task_list = 4 ∷ 6 ∷ [];
  arrays = λ a. record sample_array {
    queue = λ i. if (a == 2) && (i == 120) then 4 ∷ 6 ∷ [] else [];
    nr_active = 2;
  };
}

fork_is_pending : fork_pending 5 forked_kernel ≡ true
unfolding fork_pending
fork_is_pending = refl

parent_is_listed : 1 ≤ count 4 (4 ∷ 6 ∷ [])
unfolding count
parent_is_listed = omega arith

enqueue_task_forked_example :
    (((enqueue_task 5 2 forked_kernel).arrays 2).queue 120 ≡ 5 ∷ (remove 4 (4 ∷ 6 ∷ []) ++ 4 ∷ []))
    × (((enqueue_task 5 2 forked_kernel).tasks 4).just_got_forked ≡ false)
    × (((enqueue_task 5 2 forked_kernel).tasks 5).array ≡ some 2)
enqueue_task_forked_example =
    enqueue_task_forked 5 2 forked_kernel fork_is_pending refl (λ e. cc) parent_is_listed
