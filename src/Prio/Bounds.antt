-- ===== src/Prio/Bounds.antt =====
-- Bounds and round trips of the priorities and the time slices.
use os_hw.Base.{ℕ, ◌+◌, ◌-◌, ◌*◌, ◌/◌, ◌%◌, ◌^◌, ◌≤◌, ◌<◌, ◌≡◌, false, arith}
use os_hw.Base.Arith.{mul-le, div-le, div_mul-lt}
use os_hw.Base.Int.{ℤ, pos, negsuc, pos_part, ◌≤ℤ◌}
use os_hw.Base.Words.{wrap, to_word}
use os_hw.Model.{Env, Task, max_rt_prio, max_prio}
use os_hw.Prio.{
  nice_to_prio, prio_to_nice, short_task, overdue_task, bonus, effective_prio, min_timeslice,
  max_timeslice, task_timeslice, change_ms_to_jiffis, change_jiffis_to_ms, max_sleep_avg,
}

-- The static priority of a task is that of a nice value.
pub record IsTimeshare (prio : ℕ) : Type 0 where
  pub low : max_rt_prio ≤ prio
  pub high : prio < max_prio

-- effective_prio of a task whose static priority lies from 100 to 139 lies there too, whatever the
-- class and the average sleep of the task.
pub effective_prio-IsTimeshare :
    (env : Env) (p : Task) → IsTimeshare p.static_prio → IsTimeshare (effective_prio env p)
unfolding effective_prio
effective_prio-IsTimeshare env p h = ground arith

-- A nice value from -20 to 19 is turned into a priority from 100 to 139, and that priority back
-- into the nice value.
prio_to_nice-nice_to_prio :
    (nice : ℤ)
    → negsuc 19 ≤ℤ nice
    → nice ≤ℤ pos 19
    → IsTimeshare (pos_part (nice_to_prio nice))
      × (prio_to_nice (pos_part (nice_to_prio nice)) ≡ nice)
unfolding nice_to_prio prio_to_nice
prio_to_nice-nice_to_prio nice lo hi = (ground arith, ground arith)

module _ (env : Env) where
  -- The time slice of a task whose static priority lies from 100 to 139 lies between the least and
  -- the greatest slice.
  task_timeslice_bounds :
      (p : Task)
      → IsTimeshare p.static_prio
      → (min_timeslice env ≤ task_timeslice env p) × (task_timeslice env p ≤ max_timeslice env)
  unfolding task_timeslice
  task_timeslice_bounds p h =
      let span = max_timeslice env - min_timeslice env in
      let steps = max_prio - 1 - p.static_prio in
      (
        omega arith,
        omega (
          arith,
          div-le (span * steps) 39 span (omega arith)
              (omega (arith, mul-le span steps 39 (omega arith))),
        ),
      )

  -- Of two tasks the one whose static priority is the smaller number has a time slice that is at
  -- least as long.
  task_timeslice_antitone :
      (p q : Task) → p.static_prio ≤ q.static_prio → task_timeslice env q ≤ task_timeslice env p
  unfolding task_timeslice
  task_timeslice_antitone p q h =
      let span = max_timeslice env - min_timeslice env in
      omega (
        arith,
        mul-le span (max_prio - 1 - q.static_prio) (max_prio - 1 - p.static_prio) (omega arith),
      )

  -- The average in [0, MAX_SLEEP_AVG] is scaled into 0 ... 10.
  scaled_average-le :
      (average : ℕ)
      → average ≤ max_sleep_avg env
      → env.hz ≤ 2000000
      → wrap (1000 * average) / max_sleep_avg env / 100 ≤ 10
  scaled_average-le average h e = omega (
    arith,
    div-le (wrap (1000 * average)) (max_sleep_avg env) 1000 (omega (arith, env.hz_pos))
        (omega arith),
  )

  bonus_bounds :
      (average : ℕ)
      → average ≤ max_sleep_avg env
      → env.hz ≤ 2000000
      → (negsuc 4 ≤ℤ bonus env average) × (bonus env average ≤ℤ pos 5)
  unfolding bonus
  bonus_bounds average h e = ground (arith, scaled_average-le average h e)

  -- The dynamic priority of a task that is neither SHORT nor overdue, with a static priority from
  -- 100 to 139 and an average sleep of at most MAX_SLEEP_AVG, is within 5 of its static priority,
  -- with HZ at most 2000000.
  effective_prio_near_static :
      (p : Task)
      → IsTimeshare p.static_prio
      → short_task p ≡ false
      → overdue_task p ≡ false
      → p.sleep_avg ≤ max_sleep_avg env
      → env.hz ≤ 2000000
      → (p.static_prio ≤ effective_prio env p + 5) × (effective_prio env p ≤ p.static_prio + 5)
  unfolding effective_prio
  effective_prio_near_static p h s o l e = ground (arith, bonus_bounds p.sleep_avg l e)

  -- A request of up to 3000 ms is converted without overflow.
  pub change_ms_to_jiffis_exact :
      (ms : ℕ)
      → ms ≤ 3000
      → env.hz ≤ 500000
      → (change_ms_to_jiffis env (pos ms) ≡ pos (ms * env.hz / 1000)) × (ms * env.hz < 2 ^ 31)
  unfolding change_ms_to_jiffis
  change_ms_to_jiffis_exact ms h e =
      let small : ms * env.hz < 2 ^ 31 = omega (arith, mul-le ms env.hz 500000 e) in
      let word : (ms + 2 ^ 32) % 2 ^ 32 ≡ ms = omega arith in (rw word (ground arith), small)

  -- A time of up to 3000 ms, turned into jiffies and back, with HZ at most 500000, is not more
  -- than it was, and less by no more than a jiffy and a millisecond together.
  change_jiffis_to_ms-change_ms_to_jiffis :
      (ms : ℕ)
      → ms ≤ 3000
      → env.hz ≤ 500000
      → let back = change_jiffis_to_ms env (to_word (change_ms_to_jiffis env (pos ms))) in
        (back ≤ ms) × (ms * env.hz < (back + 1) * env.hz + 1000)
  unfolding change_jiffis_to_ms
  change_jiffis_to_ms-change_ms_to_jiffis ms h e =
      let (exact, small) = change_ms_to_jiffis_exact ms h e in
      let jiffis = ms * env.hz / 1000 in
      let word : (jiffis + 2 ^ 32) % 2 ^ 32 ≡ jiffis = omega arith in
      let product : jiffis * 1000 % 2 ^ 32 ≡ jiffis * 1000 = omega arith in
      rw (exact, word, product)
        (
          div-le (jiffis * 1000) env.hz ms env.hz_pos (omega arith),
          omega (arith, div_mul-lt (jiffis * 1000) env.hz env.hz_pos),
        )
