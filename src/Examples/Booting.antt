-- ===== src/Examples/Booting.antt =====
-- The setup of a machine whose memory holds anything.
use os_hw.Base.{
  ℕ, ◌≡◌, ◌≢◌, ap, inl, inr, Option-cases, true, [], ◌∷◌, arith, ltb, if◌then◌else◌, refl,
}
use os_hw.Boot.{sched_init, init_idle}
use os_hw.Boot.Blank.{IsBooting}
use os_hw.Boot.Valid.{init_idle-sched_init-IsValid}
use os_hw.Machine.{Step, Reach}
use os_hw.Machine.Invariant.{Reach-IsValid}
use os_hw.Queue.Effects.{rq-dequeue}
use os_hw.Runqueue.{deactivate_task, try_to_wake_up}
use os_hw.Model.{PrioArray, Runqueue, Kernel, set_rq, max_prio}
use os_hw.Prio.{overdue_task}
use os_hw.Samples.{sample_env, sample_array, sample_kernel}
use os_hw.Valid.{IsValid}

-- An array whose lists and bits have not been set up.
abbrev wild_array : PrioArray
wild_array = record {
  nr_active = 0;
  bitmap = λ i. true;
  queue = λ i. if ltb i max_prio then 7 ∷ i ∷ [] else [];
}

abbrev wild_kernel : Kernel
wild_kernel = record sample_kernel { arrays = λ a. if ltb a 4 then wild_array else sample_array }

wild_kernel-IsBooting : IsBooting wild_kernel
unfolding overdue_task
wild_kernel-IsBooting = record {
  alone = λ q. refl;
  each = λ q. ground arith;
  queueable = λ q. omega arith;
  unused = λ a. record { beyond = λ i l. ground arith; none_active = ground arith };
  others = λ a l. record {
    empty = λ i. ground arith;
    clear = λ i l'. ground arith;
    delimiter = ground arith;
    none_active = ground arith;
  };
  nothing_runs = refl;
}

abbrev set_up_kernel : Kernel
set_up_kernel = init_idle wild_kernel.current (sched_init sample_env wild_kernel)

init_idle-sched_init-IsValid_example :
    IsValid (init_idle wild_kernel.current (sched_init sample_env wild_kernel))
init_idle-sched_init-IsValid_example =
    init_idle-sched_init-IsValid sample_env wild_kernel wild_kernel-IsBooting

deactivate_task_idle : (p : ℕ) (k : Kernel) → (deactivate_task p k).rq.idle ≡ k.rq.idle
unfolding deactivate_task
deactivate_task_idle p k = elim (Option-cases (k.tasks p).array) [
  | inl e ↦ rw (e, deactivate_task) refl
  | inr (a, e) ↦ rw (e, deactivate_task) (ap Runqueue.idle (rq-dequeue p a _))
]

init_idle_idle : (idle : ℕ) (k : Kernel) → (init_idle idle k).rq.idle ≡ idle
unfolding init_idle
init_idle_idle idle k =
    deactivate_task_idle idle (set_rq k (record (k.rq) { curr = idle; idle = idle }))

two_proper : 2 ≢ set_up_kernel.rq.idle
two_proper e = absurd (omega (arith, e, init_idle_idle 0 (sched_init sample_env wild_kernel)))

-- After the setup task 2 is woken, and the clock ticks.
woken_kernel : Reach sample_env (try_to_wake_up sample_env 2 set_up_kernel).0
woken_kernel =
    Reach.then_step set_up_kernel (try_to_wake_up sample_env 2 set_up_kernel).0
      (Reach.start wild_kernel wild_kernel-IsBooting) (Step.wake set_up_kernel 2 two_proper)

Reach-IsValid_example : IsValid (try_to_wake_up sample_env 2 set_up_kernel).0
Reach-IsValid_example =
    Reach-IsValid sample_env (try_to_wake_up sample_env 2 set_up_kernel).0 woken_kernel
