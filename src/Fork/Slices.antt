-- ===== src/Fork/Slices.antt =====
-- How much time a parent and its child have after the split of the slice in do_fork (sharedFolderHW2/fork.c).
use os_hw.Base.{
  ℕ, ◌+◌, ◌*◌, ◌<◌, ◌≤◌, ◌≡◌, ◌≢◌, refl, Bool, false, some, arith, ◌==◌, if◌then◌else◌, ==_refl,
}
use os_hw.Base.Words.{word_size}
use os_hw.Model.{Env, Task, Kernel, set_task}
use os_hw.Prio.{short_task, overdue_task}
use os_hw.Fork.{fork_slices, share_timeslice}

-- The two slices of the split.
fork_slices_sum :
    (t p : Task)
    → t.i_am_overdue ≤ 1
    → p.time_slice ≡ t.time_slice
    → t.time_slice + 1 < word_size
    → (fork_slices t p).0.time_slice + (fork_slices t p).1.time_slice
      ≡ (if overdue_task t then 2 * t.time_slice else t.time_slice)
unfolding fork_slices short_task overdue_task
fork_slices_sum t p h same l = ground arith

-- A parent with two jiffies keeps one of them.
fork_slices_left : (t p : Task) → 2 ≤ t.time_slice → ((fork_slices t p).0.time_slice == 0) ≡ false
unfolding fork_slices
fork_slices_left t p h = ground arith

-- The part of do_fork that shares the slice of the parent, for a running task that has at least 2
-- and fewer than 2 ^ 32 - 1 jiffies, whose mark iAmOverdue is 0 or 1 and whose child is another
-- task with the same slice, goes through, and leaves parent and child with the slice of the parent
-- between them, or with twice that slice if the parent is overdue.
pub share_timeslice_sum :
    (env : Env) (busy : Bool) (p : ℕ) (k : Kernel)
    → p ≢ k.current
    → (k.tasks k.current).i_am_overdue ≤ 1
    → (k.tasks p).time_slice ≡ (k.tasks k.current).time_slice
    → 2 ≤ (k.tasks k.current).time_slice
    → (k.tasks k.current).time_slice + 1 < word_size
    → (k' : Kernel) × (share_timeslice env busy p k ≡ some k')
      × ((k'.tasks k.current).time_slice + (k'.tasks p).time_slice ≡ (
          if overdue_task (k.tasks k.current)
          then 2 * (k.tasks k.current).time_slice
          else (k.tasks k.current).time_slice))
unfolding share_timeslice
share_timeslice_sum env busy p k ne h same enough l =
    let c = k.current in
    let r = fork_slices (k.tasks c) (k.tasks p) in
    let k' = set_task (set_task k c r.0) p (record (r.1) { sleep_timestamp = k.jiffies }) in
    let begun : ((k.tasks c).time_slice == 0) ≡ false = ground arith in
    let away : (p == c) ≡ false = ground arith in
    let parent : k'.tasks c ≡ r.0 = rw (away, ==_refl c) refl in
    let child : (k'.tasks p).time_slice ≡ r.1.time_slice = rw (==_refl p) refl in
    let sum = fork_slices_sum (k.tasks c) (k.tasks p) h same l in
    (k', rw (begun, fork_slices_left (k.tasks c) (k.tasks p) enough) refl, rw (parent, child) sum)
