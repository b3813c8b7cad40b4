-- ===== src/Nice.antt =====
-- set_user_nice, sys_nice and the priorities as users see them, of sharedFolderHW2/sched.c.
pub mod Outcome
use os_hw.Base.{ℕ, Bool, true, false, not, ◌&&◌, ◌||◌, none, some, ltb, ◌==◌, if◌then◌else◌}
use os_hw.Base.Int.{ℤ, pos, negsuc, pos_part, sub_ℕ, ◌+ℤ◌, ltb_ℤ}
use os_hw.Model.{
  Env, Task, Kernel, Retval, value, fail, eperm, Capability, cap_sys_nice, max_user_rt_prio,
  set_task,
}
use os_hw.Prio.{nice_to_prio, prio_to_nice, task_nice, rt_task, short_task, overdue_task}
use os_hw.Queue.{dequeue_task, enqueue_task}
use os_hw.Runqueue.{resched_task}
use os_hw.Capable.{capable}

-- TASK_NICE(p) == nice
abbrev pub same_nice : ℤ → ℤ → Bool
same_nice a b = not (ltb_ℤ a b) && not (ltb_ℤ b a)

unfoldable pub reniced : ℕ → Task → Task
reniced prio t = record t { static_prio = prio; prio = prio }

-- The part of set_user_nice from `array = p->array` on.
unfoldable pub renice : ℕ → ℕ → Kernel → Kernel
unfolding reniced
renice p prio k = elim (k.tasks p).array [
  | none ↦ set_task k p (reniced prio (k.tasks p))
  | some a ↦
      let k1 = dequeue_task p a k in
      let k2 = enqueue_task p a (set_task k1 p (reniced prio (k1.tasks p))) in
      if ltb prio (k2.tasks p).static_prio || (p == k2.rq.curr)
      then resched_task k2.rq.curr k2
      else k2
]

-- The part of set_user_nice under the lock of the runqueue.
unfoldable pub set_nice_locked : ℕ → ℕ → Kernel → Kernel
unfolding rt_task short_task overdue_task renice
set_nice_locked p prio k =
    let t = k.tasks p in
    if rt_task t
    then set_task k p (record t { static_prio = prio })
    else if overdue_task t
    then set_task k p (record t { overdue_static_prio = prio })
    else if short_task t && (t.static_prio == prio)
    then k
    else renice p prio k

unfoldable pub set_user_nice : ℕ → ℤ → Kernel → Kernel
unfolding set_nice_locked task_nice nice_to_prio
set_user_nice p nice k =
    if same_nice (task_nice (k.tasks p)) nice || ltb_ℤ nice (negsuc 19) || ltb_ℤ (pos 19) nice
    then k
    else set_nice_locked p (pos_part (nice_to_prio nice)) k

-- The increment within -40 ... 40, and the sum within -20 ... 19.
unfoldable pub clamp_nice : ℤ → ℤ → ℤ → ℤ
clamp_nice least most n = if ltb_ℤ n least then least else if ltb_ℤ most n then most else n

unfoldable pub sys_nice : Env → ℤ → Kernel → Kernel × Retval
unfolding clamp_nice prio_to_nice set_user_nice capable
sys_nice env increment k =
    let r = if ltb_ℤ increment (pos 0) then capable env cap_sys_nice k else (k, true) in
    let static_prio = (k.tasks k.current).static_prio in
    let nice =
      clamp_nice (negsuc 19) (pos 19)
        (prio_to_nice static_prio +ℤ clamp_nice (negsuc 39) (pos 40) increment) in
    if r.1 then (set_user_nice k.current nice r.0, value (pos 0)) else (k, fail eperm)

unfoldable pub task_prio : Task → ℤ
task_prio p = sub_ℕ p.prio max_user_rt_prio

unfoldable pub idle_cpu : Kernel → Bool
idle_cpu k = k.rq.curr == k.rq.idle
