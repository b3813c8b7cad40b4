-- ===== src/SetScheduler.antt =====
-- setscheduler of sharedFolderHW2/sched.c and the two system calls on it.
pub mod Cases
pub mod Invariant
pub mod Outcome
pub mod Prolong
pub mod Short
use os_hw.Base.{
  ℕ, ◌+◌, ◌-◌, Bool, false, not, ◌&&◌, ◌||◌, Option, none, some, ltb, ◌==◌, if◌then◌else◌,
}
use os_hw.Base.Int.{ℤ, pos, negsuc, pos_part, ltb_ℤ}
use os_hw.Base.Words.{wrap, sub, to_word, to_int}
use os_hw.Model.{
  Env, Task, Kernel, SchedParam, UserPointer, null, bad, good, Retval, value, fail, eperm, esrch,
  efault, einval, cap_sys_nice, sched_other, sched_fifo, sched_rr, sched_short, min_requested_time,
  max_user_rt_prio, set_task,
}
use os_hw.Prio.{change_ms_to_jiffis}
use os_hw.Capable.{capable}
use os_hw.Pid.{find_process_by_pid}
use os_hw.Runqueue.{resched_task, deactivate_task, activate_task}

abbrev is_real_time : ℕ → Bool
is_real_time policy = policy == sched_fifo || policy == sched_rr

-- `policy` after the first test, or `none` where it is no policy.
unfoldable pub checked_policy : ℤ → Task → Option ℕ
checked_policy (negsuc n) t = some t.policy
checked_policy (pos policy) t =
    if is_real_time policy || (policy == sched_other || policy == sched_short)
    then some policy
    else none

-- `if (array) deactivate_task(...)`, the change of the fields, `if (array) activate_task(...)`
unfoldable pub off_and_on : Env → ℕ → (Task → Task) → Kernel → Kernel
off_and_on env p change k = elim (k.tasks p).array [
  | none ↦ set_task k p (change (k.tasks p))
  | some a ↦
      let k' = deactivate_task p k in activate_task env p (set_task k' p (change (k'.tasks p)))
]

-- A SHORT task's new time: what it has used already stays used.
unfoldable pub prolong : ℤ → Task → Task
prolong jiffis t =
    let difference = to_int (sub (to_word jiffis) (to_word t.requested_time)) in
    record t { requested_time = jiffis; time_slice = wrap (t.time_slice + to_word difference) }

unfoldable pub make_short : ℤ → Task → Task
make_short jiffis t = record t {
  policy = sched_short;
  requested_time = jiffis;
  i_was_short = 1;
  time_slice = to_word jiffis;
}

-- The priority and the policy of the tail of setscheduler.
unfoldable pub make_classic : ℕ → ℕ → Task → Task
make_classic policy priority t = record t {
  policy = policy;
  rt_priority = priority;
  prio = if policy == sched_other then t.static_prio else max_user_rt_prio - 1 - priority;
}

-- A valid priority lies in 0 ... MAX_USER_RT_PRIO - 1, and is 0 for SCHED_OTHER alone.
abbrev pub priority_out_of_range : SchedParam → Bool
priority_out_of_range lp =
    ltb_ℤ lp.sched_priority (pos 0) || ltb_ℤ (pos (max_user_rt_prio - 1)) lp.sched_priority

abbrev pub priority_mismatch : ℕ → SchedParam → Bool
priority_mismatch policy lp =
    let zero_priority = pos_part lp.sched_priority == 0 in
    (policy == sched_other && not zero_priority) || (not (policy == sched_other) && zero_priority)

module _ (env : Env) where
  -- From the label `change_to_short` on.
  unfoldable pub change_to_short : ℕ → SchedParam → Kernel → Kernel × Retval
  unfolding off_and_on prolong make_short
  change_to_short p lp k =
      let caller = k.tasks k.current in
      let t = k.tasks p in
      let jiffis = change_ms_to_jiffis env lp.requested_time in
      let k' =
        if t.policy == sched_short
        then set_task k p (prolong jiffis t)
        else off_and_on env p (make_short jiffis) k in
      if not (caller.euid == t.euid) && not (caller.euid == 0)
      then (k, fail eperm)
      else (resched_task k'.current k', value (pos 0))

  -- `test && !capable(CAP_SYS_NICE)`, where the right side is reached only if the left one holds.
  unfoldable pub refused_unless_capable : Bool → Kernel → Kernel × Bool
  refused_unless_capable test k =
      let (k', raised) = capable env cap_sys_nice k in if test then (k', not raised) else (k, false)

  -- From the comment on the valid priorities on: the policies that Linux has itself.
  unfoldable pub change_classic : ℕ → ℕ → SchedParam → Kernel → Kernel × Retval
  unfolding refused_unless_capable off_and_on make_classic
  change_classic p policy lp k =
      let caller = k.tasks k.current in
      let t = k.tasks p in
      let (k1, denied) = refused_unless_capable (is_real_time policy) k in
      let (k2, foreign) =
        refused_unless_capable (not (caller.euid == t.euid) && not (caller.euid == t.uid)) k1 in
      let changed = off_and_on env p (make_classic policy (pos_part lp.sched_priority)) k2 in
      if priority_out_of_range lp
      then (k, fail einval)
      else if priority_mismatch policy lp
      then (k, fail einval)
      else if denied
      then (k1, fail eperm)
      else if foreign
      then (k2, fail eperm)
      else (changed, value (pos 0))

  -- Has the SHORT task used less than the new time? The two `int`s are compared as `unsigned`.
  unfoldable pub may_prolong : SchedParam → Task → Bool
  may_prolong lp t =
      not (ltb_ℤ (pos 3000) lp.requested_time)
      && ltb (sub (to_word t.requested_time) t.time_slice)
          (to_word (change_ms_to_jiffis env lp.requested_time))

  unfoldable pub valid_request : SchedParam → Bool
  valid_request lp =
      not (ltb_ℤ (pos 3000) lp.requested_time)
      && not (ltb_ℤ (change_ms_to_jiffis env lp.requested_time) (pos min_requested_time))

  -- setscheduler from the point where the runqueue is locked.
  unfoldable pub change_policy : ℕ → ℤ → SchedParam → Kernel → Kernel × Retval
  unfolding checked_policy change_to_short change_classic may_prolong valid_request
  change_policy p policy lp k =
      let t = k.tasks p in
      elim (checked_policy policy t) [
        | none ↦ (k, fail einval)
        | some policy ↦
            if t.policy == sched_short
            then if policy == sched_short
              then if may_prolong lp t then change_to_short p lp k else (k, fail einval)
              else (k, fail eperm)
            else if policy == sched_short
            then if is_real_time t.policy
              then (k, fail einval)
              else if valid_request lp
              then change_to_short p lp k
              else (k, fail einval)
            else change_classic p policy lp k
      ]

  unfoldable pub setscheduler : ℤ → ℤ → UserPointer SchedParam → Kernel → Kernel × Retval
  unfolding change_policy
  setscheduler (negsuc n) policy param k = (k, fail einval)
  setscheduler (pos pid) policy null k = (k, fail einval)
  setscheduler (pos pid) policy bad k = (k, fail efault)
  setscheduler (pos pid) policy (good lp) k = elim (find_process_by_pid pid k) [
    | none ↦ (k, fail esrch)
    | some p ↦ change_policy p policy lp k
  ]

  unfoldable pub sys_sched_setscheduler : ℤ → ℤ → UserPointer SchedParam → Kernel → Kernel × Retval
  sys_sched_setscheduler pid policy param k = setscheduler pid policy param k

  unfoldable pub sys_sched_setparam : ℤ → UserPointer SchedParam → Kernel → Kernel × Retval
  sys_sched_setparam pid param k = setscheduler pid (negsuc 0) param k
