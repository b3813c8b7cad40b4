-- ===== src/Fork.antt =====
-- The part of do_fork of sharedFolderHW2/fork.c in which a parent shares its time slice with its child.
pub mod Slices
use os_hw.Base.{ℕ, ◌+◌, ◌/◌, ◌%◌, Bool, true, false, Option, none, some, ◌==◌, if◌then◌else◌}
use os_hw.Base.Words.{wrap}
use os_hw.Model.{Env, Task, Kernel, sched_short, set_task}
use os_hw.Prio.{short_task}
use os_hw.Tick.{scheduler_tick}

-- The fields of the parent and of the child after the split.
unfoldable pub fork_slices : Task → Task → Task × Task
unfolding short_task
fork_slices current p =
    let slice = current.time_slice in
    if current.policy == sched_short
    then (if short_task current
        then (
          record current { time_slice = slice / 2; just_got_forked = true },
          record p {
            policy = sched_short;
            time_slice = slice / 2 + slice % 2;
            first_time_slice = true;
          },
        )
        else (current, record p { policy = sched_short; first_time_slice = true }))
    else (
      record current { time_slice = slice / 2 },
      record p { time_slice = wrap (slice + 1) / 2; first_time_slice = true },
    )

-- The split for the child `p`, a copy of `current`, up to the tick of a parent that has no time left;
-- `busy` is as for scheduler_tick, and `none` is BUG().
unfoldable pub share_timeslice : Env → Bool → ℕ → Kernel → Option Kernel
unfolding fork_slices scheduler_tick
share_timeslice env busy p k =
    let c = k.current in
    let (t, child) = fork_slices (k.tasks c) (k.tasks p) in
    let k' = set_task (set_task k c t) p (record child { sleep_timestamp = k.jiffies }) in
    let last = set_task k' c (record t { just_got_forked = false; time_slice = 1 }) in
    let ticked = scheduler_tick env busy 0 0 last in
    if (k.tasks c).time_slice == 0 then none else some (if t.time_slice == 0 then ticked else k')

-- fork_init: max_threads, and both limits on the processes of a user
unfoldable pub fork_init : ℕ → ℕ → ℕ → ℕ × ℕ
fork_init thread_size page_size mempages =
    let max_threads = mempages / (thread_size / page_size) / 8 in (max_threads, max_threads / 2)
