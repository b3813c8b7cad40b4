-- ===== src/Examples/Ticking.antt =====
-- A SHORT task that keeps the processor of a concrete machine.
use os_hw.Base.{refl, some, arith, upd}
use os_hw.Base.Int.{pos}
use os_hw.Model.{Kernel, Task, sched_short}
use os_hw.Prio.{rt_task, short_task}
use os_hw.Samples.{sample_env, sample_task, sample_kernel}
use os_hw.Tick.Overdue.{RunsShort, IsOverdueNow, ticks, ticks-IsOverdueNow}

abbrev short_sample : Task
short_sample = record (sample_task 1) {
  policy = sched_short;
  array = some 2;
  time_slice = 3;
  requested_time = pos 3;
}

abbrev short_kernel : Kernel
short_kernel = record sample_kernel { current = 1; tasks = upd sample_task 1 short_sample }

short_kernel-RunsShort : RunsShort short_kernel
unfolding rt_task short_task
short_kernel-RunsShort = record {
  proper = λ e. cc;
  placed = refl;
  ordinary = refl;
  short = refl;
  calm = refl;
}

ticks-IsOverdueNow_example : IsOverdueNow sample_env 1 0 1 (ticks sample_env 1 0 3 short_kernel)
ticks-IsOverdueNow_example =
    ticks-IsOverdueNow sample_env 1 0 2 short_kernel short_kernel-RunsShort refl (omega arith)
