-- ===== src/Examples/Running.antt =====
-- The runqueue, the tick and schedule at concrete states.
use os_hw.Base.{
  ℕ, ◌≡◌, ◌≢◌, refl, inl, inr, true, false, some, none, arith, ◌<◌, sum_below, ==-cases, sym, ap,
  ◌∙◌, ◌+◌, ◌≤◌, first, count, [], ◌∷◌,
}
use os_hw.Base.Words.{word_size}
use os_hw.Model.{Kernel, task_running}
use os_hw.Prio.{pointer_to_my_active_prio_array}
use os_hw.Queue.{enqueue_task, enqueue_tail}
use os_hw.Queue.Sync.{total, total-enqueue_self, total-enqueue_ne}
use os_hw.Valid.Moves.{enqueue_task_tail}
use os_hw.Valid.Parts.{IsSound-off}
use os_hw.Runqueue.{resched_task, reward_sleep, activate_task}
use os_hw.Runqueue.Invariant.{IsRewarded, reward_sleep-IsRewarded, activate_task-IsValid}
use os_hw.Tick.{scheduler_tick}
use os_hw.Tick.Invariant.{scheduler_tick-IsValid}
use os_hw.Schedule.Ending.{CanSchedule, schedule-Ends}
use os_hw.Valid.Moves.{keep}
use os_hw.Schedule.{schedule, schedule_pass, switch_tasks, leave, pick_next}
use os_hw.Schedule.Ready.{ready}
use os_hw.Schedule.Order.{pick_next-ready}
use os_hw.Schedule.Invariant.{schedule_pass-IsValid, switch_tasks-IsValid}
use os_hw.Samples.{sample_env, sample_kernel, sample_kernel-IsValid}
use os_hw.Valid.{IsValid}
use os_hw.Yield.{sys_sched_yield}
use os_hw.Yield.Ending.{sys_sched_yield-Ends}

-- Task 1 is ready, and then runs.
abbrev ready_kernel : Kernel
ready_kernel = activate_task sample_env 1 sample_kernel

abbrev running_kernel : Kernel
running_kernel = switch_tasks 1 ready_kernel

ready_kernel-IsValid : IsValid ready_kernel
ready_kernel-IsValid =
    activate_task-IsValid sample_env 1 sample_kernel sample_kernel-IsValid refl (λ e. cc)

running_kernel-IsValid : IsValid running_kernel
running_kernel-IsValid = switch_tasks-IsValid 1 ready_kernel ready_kernel-IsValid

running_task_array : (running_kernel.tasks running_kernel.current).array ≡ some 0
unfolding switch_tasks activate_task enqueue_task pointer_to_my_active_prio_array
running_task_array = refl

scheduler_tick-IsValid_example : IsValid (scheduler_tick sample_env false 1 0 running_kernel)
scheduler_tick-IsValid_example =
    scheduler_tick-IsValid sample_env false 1 0 0 running_kernel running_kernel-IsValid
      (inr running_task_array)

none_ready : (a : ℕ) → total (sample_kernel.arrays a) ≡ 0
unfolding sum_below
none_ready a = refl

-- Task 1 on its way to its array.
abbrev rewarded_kernel : Kernel
rewarded_kernel = reward_sleep sample_env 1 sample_kernel

rewarded_kernel-IsSound : IsRewarded sample_env 1 sample_kernel rewarded_kernel
rewarded_kernel-IsSound =
    reward_sleep-IsRewarded sample_env 1 sample_kernel
      (IsSound-off 1 sample_kernel-IsValid.sound refl) (λ e. cc)

one_more :
    (a : ℕ)
    → total ((enqueue_tail 1 0 rewarded_kernel).arrays a) ≤ total (rewarded_kernel.arrays a) + 1
one_more a =
    let r = rewarded_kernel-IsSound in
    let l = r.sound.queueable 1 (rw r.rq (λ e. cc)) in
    elim (==-cases 0 a) [
      | inl same ↦ rw (sym same) (omega (arith, total-enqueue_self 1 0 r.sound.sync l))
      | inr other ↦ omega (arith, total-enqueue_ne 1 0 r.sound.sync l a other)
    ]

few_ready : (a : ℕ) → total (ready_kernel.arrays a) < word_size
unfolding activate_task pointer_to_my_active_prio_array
few_ready a =
    let r = rewarded_kernel-IsSound in
    let bound : total (rewarded_kernel.arrays a) ≡ 0 =
      ap (λ arrays. total (arrays a)) r.arrays ∙ none_ready a in
    rw (enqueue_task_tail 1 0 rewarded_kernel r.sound) (omega (arith, one_more a, bound))

few : (a : ℕ) → total ((leave ready_kernel).arrays a) < word_size
unfolding leave activate_task enqueue_task
few a = few_ready a

idle_running : (ready_kernel.tasks ready_kernel.current).state ≡ task_running
unfolding activate_task enqueue_task
idle_running = refl

schedule_pass-IsValid_example :
    (k' : Kernel) × (schedule_pass sample_env ready_kernel ≡ some k') × IsValid k'
schedule_pass-IsValid_example =
    schedule_pass-IsValid sample_env ready_kernel ready_kernel-IsValid (inl idle_running) few

one_running : ready_kernel.rq.nr_running ≢ 0
unfolding activate_task enqueue_task
one_running = omega arith

pick_next-ready_example :
    ((pick_next sample_env ready_kernel).1 ≡ first (ready ready_kernel))
    × ((pick_next sample_env ready_kernel).1 ≢ none)
pick_next-ready_example =
    pick_next-ready sample_env ready_kernel ready_kernel-IsValid few_ready one_running

-- Task 1 is ready and has the flag need_resched, so that schedule passes twice.
abbrev flagged_kernel : Kernel
flagged_kernel = resched_task 1 ready_kernel

flagged_kernel-CanSchedule : CanSchedule flagged_kernel
unfolding resched_task activate_task enqueue_task
flagged_kernel-CanSchedule = record {
  valid =
      keep 1 (record (ready_kernel.tasks 1) { need_resched = true }) ready_kernel-IsValid
        (ground arith);
  leaves = inl flagged_idle;
  idle_runs = flagged_idle;
  fits = few_ready;
}
  where
    flagged_idle : (flagged_kernel.tasks 0).state ≡ task_running
    flagged_idle = unfold activate_task enqueue_task in refl

one_flagged : (q : ℕ) → (flagged_kernel.tasks q).need_resched ≡ true → 1 ≤ count q (1 ∷ [])
unfolding resched_task activate_task enqueue_task count
one_flagged q h = ground arith

schedule-Ends_example :
    (k' : Kernel) × (schedule sample_env 3 flagged_kernel ≡ some k')
    × IsValid k'
    × ((k'.tasks k'.current).need_resched ≡ false)
schedule-Ends_example =
    schedule-Ends sample_env 2 (1 ∷ []) flagged_kernel flagged_kernel-CanSchedule one_flagged
      (omega arith)

-- Task 1 runs, and yields.
running_kernel-CanSchedule : CanSchedule running_kernel
unfolding switch_tasks activate_task enqueue_task
running_kernel-CanSchedule = record {
  valid = running_kernel-IsValid;
  leaves = inl refl;
  idle_runs = refl;
  fits = few_ready;
}

none_flagged : (q : ℕ) → (running_kernel.tasks q).need_resched ≡ true → 1 ≤ count q []
unfolding switch_tasks activate_task enqueue_task count
none_flagged q h = ground arith

sys_sched_yield-Ends_example :
    (k' : Kernel) × (sys_sched_yield sample_env 2 running_kernel ≡ some k')
    × IsValid k'
    × ((k'.tasks k'.current).need_resched ≡ false)
sys_sched_yield-Ends_example =
    sys_sched_yield-Ends sample_env 0 running_kernel running_kernel-CanSchedule running_task_array 1
      [] none_flagged (omega arith)
