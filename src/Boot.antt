-- ===== src/Boot.antt =====
-- sched_init and init_idle of sharedFolderHW2/sched.c, and INIT_TASK of sharedFolderHW2/sched.h, for
-- one processor.
pub mod Lists
pub mod Waking
pub mod Blank
pub mod Valid
use os_hw.Base.{ℕ, zero, suc, ◌+◌, ◌-◌, true, false, none, [], upd}
use os_hw.Base.Int.{pos}
use os_hw.Base.Words.{word_size}
use os_hw.Model.{
  Env, Task, PrioArray, Runqueue, Kernel, max_prio, task_running, sched_other, set_task, set_array,
  set_rq,
}
use os_hw.Runqueue.{deactivate_task, try_to_wake_up}

-- The loop on `k` in sched_init: `n` lists from the list `i` on.
unfoldable pub init_lists : ℕ → ℕ → PrioArray → PrioArray
init_lists zero i v = v
init_lists (suc n) i v =
    init_lists n (i + 1) (record v { queue = upd v.queue i []; bitmap = upd v.bitmap i false })

-- ... and the delimiter for the search of the bitmap.
unfoldable pub init_prio_array : PrioArray → PrioArray
unfolding init_lists
init_prio_array v =
    let v' = init_lists max_prio 0 v in record v' { bitmap = upd v'.bitmap max_prio true }

-- The body of the loop on the processors.
unfoldable pub init_runqueue : Kernel → Kernel
unfolding init_prio_array
init_runqueue k =
    let rq = k.rq in
    let k' = set_rq k (record rq { active = 0; expired = 1; rt_short = 2; overdue = 3 }) in
    let init = λ (a : ℕ) (k : Kernel). set_array k a (init_prio_array (k.arrays a)) in
    init 3 (init 2 (init 1 (init 0 k')))

-- sched_init up to the timers and the bottom halves.
unfoldable pub sched_init : Env → Kernel → Kernel
unfolding init_runqueue try_to_wake_up
sched_init env k =
    let k' = init_runqueue k in
    let rq = k'.rq in
    let booting = set_rq k' (record rq { curr = k'.current; idle = k'.current }) in
    (try_to_wake_up env k'.current booting).0

unfoldable pub init_idle : ℕ → Kernel → Kernel
unfolding deactivate_task
init_idle idle k =
    let rq = k.rq in
    let k' = deactivate_task idle (set_rq k (record rq { curr = idle; idle = idle })) in
    let t = k'.tasks idle in
    set_task k' idle
      (record t { array = none; prio = max_prio; state = task_running; need_resched = true })

-- INIT_TASK, for a machine with this HZ and the effective capabilities CAP_INIT_EFF_SET; the fields
-- that the macro leaves out are zero.
unfoldable pub init_task : Env → ℕ → Task
init_task env cap_init_eff_set = record {
  state = 0;
  flags = 0;
  sigpending = false;
  need_resched = false;
  prio = max_prio - 20;
  static_prio = max_prio - 20;
  array = none;
  sleep_avg = 0;
  sleep_timestamp = 0;
  policy = sched_other;
  time_slice = env.hz;
  first_time_slice = false;
  pid = 0;
  pgrp = 0;
  session = 0;
  tgid = 0;
  p_opptr = 0;
  p_pptr = 0;
  rt_priority = 0;
  uid = 0;
  euid = 0;
  cap_effective = cap_init_eff_set;
  ptrace = 0;
  exit_signal = 0;
  pdeath_signal = 0;
  leader = false;
  did_exec = false;
  swappable = false;
  cpus_allowed = word_size - 1;
  cpus_allowed_mask = word_size - 1;
  requested_time = pos 0;
  i_am_overdue = 0;
  i_was_short = 0;
  overdue_static_prio = 0;
  just_got_forked = false;
}
