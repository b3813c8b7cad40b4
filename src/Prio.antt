-- ===== src/Prio.antt =====
-- Priorities and time slices: the macros and the course's helpers at the top of
-- sharedFolderHW2/sched.c, with effective_prio, and the conversions of sharedFolderHW2/sched.h.
pub mod Bounds
use os_hw.Base.{ℕ, ◌+◌, ◌-◌, ◌*◌, ◌/◌, Bool, ◌&&◌, ◌||◌, not, ltb, ◌==◌, if◌then◌else◌}
use os_hw.Base.Int.{ℤ, pos, pos_part, ◌+ℤ◌, ◌-ℤ◌, quot, ltb_ℤ}
use os_hw.Base.Words.{wrap, sub, to_word, to_int, mul_int}
use os_hw.Model.{Env, Task, Runqueue, max_rt_prio, max_prio, overdue_prio, sched_short, sched_other}

-- NICE_TO_PRIO and PRIO_TO_NICE
unfoldable pub nice_to_prio : ℤ → ℤ
nice_to_prio nice = pos (max_rt_prio + 20) +ℤ nice

unfoldable pub prio_to_nice : ℕ → ℤ
prio_to_nice prio = pos prio -ℤ pos (max_rt_prio + 20)

unfoldable pub task_nice : Task → ℤ
unfolding prio_to_nice
task_nice p = prio_to_nice p.static_prio

abbrev pub max_user_prio : ℕ
max_user_prio = max_prio - max_rt_prio

abbrev pub prio_bonus_ratio : ℕ
prio_bonus_ratio = 25

abbrev pub interactive_delta : ℤ
interactive_delta = pos 2

unfoldable pub rt_task : Task → Bool
rt_task p = ltb p.prio max_rt_prio

unfoldable pub short_task : Task → Bool
short_task p = p.policy == sched_short && p.i_am_overdue == 0

unfoldable pub overdue_task : Task → Bool
overdue_task p = p.policy == sched_short && p.i_am_overdue == 1

unfoldable pub other_task : Task → Bool
other_task p = p.policy == sched_other

unfoldable pub pointer_to_my_active_prio_array : Task → Runqueue → ℕ
unfolding rt_task short_task overdue_task
pointer_to_my_active_prio_array p rq =
    if short_task p || rt_task p
    then rq.rt_short
    else if overdue_task p
    then rq.overdue
    else rq.active

-- DELTA: the dynamic priority has to lie this far below the static one.
unfoldable pub delta : Task → ℤ
unfolding task_nice
delta p =
    quot (mul_int (task_nice p) (max_user_prio * prio_bonus_ratio / 100)) 40 +ℤ interactive_delta

unfoldable pub task_interactive : Task → Bool
unfolding delta
task_interactive p = not (ltb_ℤ (pos p.static_prio -ℤ delta p) (pos p.prio))

module _ (env : Env) where
  -- CHANGE_MS_TO_JIFFIS of an `int`.
  unfoldable pub change_ms_to_jiffis : ℤ → ℤ
  change_ms_to_jiffis ms = quot (mul_int ms env.hz) 1000

  -- CHANGE_JIFFIS_TO_MS of an `unsigned int`, and of an `int`.
  unfoldable pub change_jiffis_to_ms : ℕ → ℕ
  change_jiffis_to_ms jifs = wrap (jifs * 1000) / env.hz

  unfoldable pub change_int_jiffis_to_ms : ℤ → ℤ
  change_int_jiffis_to_ms jifs = quot (mul_int jifs 1000) env.hz

  abbrev pub min_timeslice : ℕ
  min_timeslice = 10 * env.hz / 1000

  abbrev pub max_timeslice : ℕ
  max_timeslice = 300 * env.hz / 1000

  abbrev pub max_sleep_avg : ℕ
  max_sleep_avg = 2 * env.hz

  -- TASK_TIMESLICE, for a static priority of at most MAX_PRIO - 1.
  unfoldable pub task_timeslice : Task → ℕ
  task_timeslice p =
      min_timeslice + (max_timeslice - min_timeslice) * (max_prio - 1 - p.static_prio) / 39

  unfoldable pub os_task_timeslice : Task → ℕ
  unfolding short_task overdue_task task_timeslice
  os_task_timeslice p =
      if short_task p
      then to_word p.requested_time
      else if overdue_task p
      then to_word (mul_int p.requested_time 2)
      else task_timeslice p

  -- The bonus is computed in `unsigned long` and stored into an `int`.
  unfoldable pub bonus : ℕ → ℤ
  bonus sleep_avg = to_int (
      sub (wrap (max_user_prio * prio_bonus_ratio * sleep_avg) / max_sleep_avg / 100)
        (max_user_prio * prio_bonus_ratio / 100 / 2))

  -- The last lines of effective_prio: the priority is kept among those of SCHED_OTHER.
  abbrev pub clamp_prio : ℤ → ℕ
  clamp_prio prio =
      if ltb_ℤ prio (pos max_rt_prio)
      then max_rt_prio
      else if ltb_ℤ (pos (max_prio - 1)) prio
      then max_prio - 1
      else pos_part prio

  unfoldable pub effective_prio : Task → ℕ
  unfolding short_task overdue_task bonus
  effective_prio p =
      if short_task p
      then p.static_prio
      else if overdue_task p
      then overdue_prio
      else clamp_prio (pos p.static_prio -ℤ bonus p.sleep_avg)
