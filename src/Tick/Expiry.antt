-- ===== src/Tick/Expiry.antt =====
-- What the end of a time slice makes of a task: the classes of sharedFolderHW2/ControlPaths.txt.
use os_hw.Base.{◌≡◌, true, arith, if◌then◌else◌}
use os_hw.Base.Int.{pos}
use os_hw.Base.Words.{to_word, mul_int}
use os_hw.Model.{Env, Task, overdue_prio, invalid_requested_time}
use os_hw.Prio.{
  short_task, overdue_task, other_task, effective_prio, task_timeslice, os_task_timeslice,
}
use os_hw.Prio.Bounds.{IsTimeshare, effective_prio-IsTimeshare}
use os_hw.Tick.{next_class, refill}
use os_hw.Valid.{IsTask}

-- The classes between which the course's policy moves a task.
pub data Class : Type 0 where
  short overdue other classic : Class

pub class_of : Task → Class
class_of t =
    if short_task t
    then Class.short
    else if overdue_task t
    then Class.overdue
    else if other_task t
    then Class.other
    else Class.classic

-- The moves at the end of a slice, as the document on the control paths lists them.
pub data Expiry : Class → Class → Type 0 where
  short_to_overdue : Expiry Class.short Class.overdue
  overdue_to_other : Expiry Class.overdue Class.other
  stays_other : Expiry Class.other Class.other
  stays_classic : Expiry Class.classic Class.classic

-- The end of a time slice moves a task from class to class as the relation Expiry lists it: SHORT
-- to overdue, overdue to other, and other and real-time tasks stay what they are.
refill-Expiry : (env : Env) (t : Task) → Expiry (class_of t) (class_of (refill env t))
unfolding class_of refill short_task overdue_task other_task
refill-Expiry env t = ground (arith, short_to_overdue, overdue_to_other, stays_other, stays_classic)

module _ (env : Env) (t : Task) where
  -- A SHORT task that uses up its time is overdue: its dynamic priority is OVERDUE_PRIO, its
  -- static priority is saved, and its new slice is twice its requested time.
  pub refill_short :
      short_task t ≡ true
      → (overdue_task (refill env t) ≡ true)
        × ((refill env t).prio ≡ overdue_prio)
        × ((refill env t).overdue_static_prio ≡ t.static_prio)
        × ((refill env t).time_slice ≡ to_word (mul_int t.requested_time 2))
  unfolding refill overdue_task short_task effective_prio os_task_timeslice
  refill_short h = ground arith

  -- A SHORT task that uses up its time and then its overdue time is an ordinary task again: it has
  -- the static priority that it had, no requested time, the time slice of that priority, and its
  -- mark of having been SHORT as it stood.
  pub refill-refill :
      short_task t ≡ true
      → let back = refill env (refill env t) in
        (class_of back ≡ Class.other)
        × (back.static_prio ≡ t.static_prio)
        × (back.requested_time ≡ pos invalid_requested_time)
        × (back.i_was_short ≡ t.i_was_short)
        × (back.i_am_overdue ≡ 0)
        × (back.time_slice ≡ task_timeslice env t)
  unfolding refill overdue_task short_task other_task effective_prio os_task_timeslice class_of
  refill-refill h = ground arith

  next_class-IsTask : IsTask t → IsTask (next_class t)
  unfolding next_class overdue_task short_task
  next_class-IsTask h = ground arith

  pub refill-prio : IsTask t → IsTimeshare (refill env t).prio
  unfolding refill
  refill-prio h = effective_prio-IsTimeshare env (next_class t) (next_class-IsTask h).static

  pub refill-IsTask : IsTask t → IsTask (refill env t)
  unfolding refill overdue_task
  refill-IsTask h = ground (arith, next_class-IsTask h)
