-- ===== src/Affinity.antt =====
-- sys_sched_setaffinity and sys_sched_getaffinity of sharedFolderHW2/sched.c, in the build for one
-- processor, in which set_cpus_allowed does nothing. `online` is cpu_online_map. No task has a
-- negative PID.
pub mod Outcome
use Prim.Native.Nat.{bit_and, bit_or}
use os_hw.Base.{ℕ, Bool, true, false, not, ◌&&◌, Option, none, some, ltb, ◌==◌, if◌then◌else◌}
use os_hw.Base.Int.{ℤ, pos, negsuc}
use os_hw.Capable.{capable}
use os_hw.Model.{
  Env, Task, Kernel, UserPointer, null, bad, good, Retval, value, fail, einval, esrch, eperm,
  efault, cap_sys_nice, set_task,
}
use os_hw.Pid.{find_process_by_pid}

-- sizeof(unsigned long)
abbrev pub size_of_mask : ℕ
size_of_mask = 4

-- find_process_by_pid of a PID that may be negative
abbrev pub process_of : ℤ → Kernel → Option ℕ
process_of (pos pid) k = find_process_by_pid pid k
process_of (negsuc n) k = none

-- From the first call of capable on, for the task that the call is about.
unfoldable pub change_affinity : Env → ℕ → ℕ → Kernel → Kernel × Retval
unfolding capable
change_affinity env p mask k =
    let (k1, first) = capable env cap_sys_nice k in
    let new_mask = if first then mask else bit_and mask (k1.tasks p).cpus_allowed_mask in
    let (k2, second) = capable env cap_sys_nice k1 in
    let t = k2.tasks p in
    let widened = record t { cpus_allowed_mask = bit_or t.cpus_allowed_mask new_mask } in
    let k3 = if second then set_task k2 p widened else k2 in
    let c = k3.tasks k3.current in
    let foreign = not (c.euid == (k3.tasks p).euid) && not (c.euid == (k3.tasks p).uid) in
    let (k4, third) = capable env cap_sys_nice k3 in
    if new_mask == 0
    then (k3, fail einval)
    else if foreign
    then if third then (k4, value (pos 0)) else (k4, fail eperm)
    else (k3, value (pos 0))

unfoldable pub sys_sched_setaffinity : Env → ℕ → ℤ → ℕ → UserPointer ℕ → Kernel → Kernel × Retval
unfolding change_affinity
sys_sched_setaffinity env online pid len null k =
    if ltb len size_of_mask then (k, fail einval) else (k, fail efault)
sys_sched_setaffinity env online pid len bad k =
    if ltb len size_of_mask then (k, fail einval) else (k, fail efault)
sys_sched_setaffinity env online pid len (good user_mask) k =
    let mask = bit_and user_mask online in
    if ltb len size_of_mask
    then (k, fail einval)
    else if mask == 0
    then (k, fail einval)
    else elim (process_of pid k) [ none ↦ (k, fail esrch) | some p ↦ change_affinity env p mask k ]

-- What it returns, and the mask that it writes to user space.
unfoldable pub sys_sched_getaffinity : ℕ → ℤ → ℕ → UserPointer ℕ → Kernel → Retval × Option ℕ
sys_sched_getaffinity online pid len user k =
    if ltb len size_of_mask then (fail einval, none) else elim (process_of pid k) [
      | none ↦ (fail esrch, none)
      | some p ↦ elim user [
        | null ↦ (fail efault, none)
        | bad ↦ (fail efault, none)
        | good old ↦ (value (pos size_of_mask), some (bit_and (k.tasks p).cpus_allowed online))
      ]
    ]
