-- ===== src/Boot/Valid.antt =====
-- The machine that sched_init and init_idle leave is valid: the base of the invariant.
use os_hw.Base.{ℕ, ◌+◌, ◌<◌, ◌≡◌, ◌≢◌, refl, sym, ap, ◌∙◌, true, none, some, arith, ==_refl}
use os_hw.Base.Words.{dec}
use os_hw.Model.{Env, Task, Kernel, max_prio, task_running, set_task, set_rq}
use os_hw.Boot.{init_runqueue, sched_init, init_idle}
use os_hw.Boot.Waking.{
  with_idle, try_to_wake_up-with_idle, deactivate_task-with_idle, current-try_to_wake_up,
}
use os_hw.Prio.{overdue_task, pointer_to_my_active_prio_array}
use os_hw.Runqueue.{deactivate_task, wake_sleeper, try_to_wake_up, resched_task}
use os_hw.Runqueue.Invariant.{deactivate_task-IsValid, try_to_wake_up-IsValid}
use os_hw.SetScheduler.Short.{activate_task_lands}
use os_hw.Valid.{IsTask, IsValid}
use os_hw.Valid.Moves.{restamp}
use os_hw.Valid.Parts.{IsSound-off}
use os_hw.Boot.Blank.{IsBooting, init_runqueue-IsBlank, blank-IsValid, idle_fields-IsValid}

module _ (env : Env) where
  wake_sleeper_lands :
      (p : ℕ) (k : Kernel)
      → IsValid k
      → (k.tasks p).array ≡ none
      → p ≢ k.rq.idle
      → ((wake_sleeper env p k).tasks p).array
        ≡ some (pointer_to_my_active_prio_array (k.tasks p) k.rq)
  unfolding wake_sleeper resched_task pointer_to_my_active_prio_array
  wake_sleeper_lands p k v off ne =
      let rq = record (k.rq) { nr_uninterruptible = dec k.rq.nr_uninterruptible } in
      let v1 = restamp rq v (ground arith) refl in
      ground (
        arith,
        activate_task_lands env p k (IsSound-off p v.sound off) ne,
        activate_task_lands env p (set_rq k rq) (IsSound-off p v1.sound off) ne,
      )

  try_to_wake_up_lands :
      (p : ℕ) (k : Kernel)
      → IsValid k
      → (k.tasks p).array ≡ none
      → p ≢ k.rq.idle
      → ((try_to_wake_up env p k).0.tasks p).array
        ≡ some (pointer_to_my_active_prio_array (k.tasks p) k.rq)
  unfolding try_to_wake_up pointer_to_my_active_prio_array
  try_to_wake_up_lands p k v off ne =
      rw (off, try_to_wake_up, ==_refl p) (wake_sleeper_lands p k v off ne)

  -- sched_init before it wakes the first task.
  abbrev booting : Kernel → Kernel
  booting k =
      let k' = init_runqueue k in
      let rq = k'.rq in set_rq k' (record rq { curr = k'.current; idle = k'.current })

  booting-IsValid : (k : Kernel) (e : ℕ) → IsBooting k → IsValid (with_idle e (booting k))
  unfolding init_runqueue
  booting-IsValid k e b =
      blank-IsValid (with_idle e (booting k)) (init_runqueue-IsBlank k b) b.alone b.each b.queueable
        (ground arith) refl b.nothing_runs

  -- The first task is woken, and may be taken off again, with any other task as the idle one.
  module _ (k : Kernel) (b : IsBooting k) (e : ℕ) (ne : k.current ≢ e) where
    abbrev other_idle : Kernel
    other_idle = with_idle e (booting k)

    woken : (try_to_wake_up env k.current other_idle).0 ≡ with_idle e (sched_init env k)
    unfolding sched_init init_runqueue
    woken =
        try_to_wake_up-with_idle env k.current e (booting k) (b.each k.current).calm
          (b.alone k.current)

    first_array :
        ((sched_init env k).tasks k.current).array
        ≡ some (pointer_to_my_active_prio_array (k.tasks k.current) other_idle.rq)
    unfolding init_runqueue
    first_array =
        ap (λ (k' : Kernel). (k'.tasks k.current).array) (sym woken)
        ∙ try_to_wake_up_lands k.current other_idle (booting-IsValid k e b) (b.alone k.current) ne

    settled : IsValid (with_idle e (deactivate_task k.current (sched_init env k)))
    unfolding init_runqueue
    settled =
        let a = pointer_to_my_active_prio_array (k.tasks k.current) other_idle.rq in
        let v = (try_to_wake_up-IsValid env k.current other_idle (booting-IsValid k e b) ne).0 in
        let v' : IsValid (with_idle e (sched_init env k)) = rw (← woken) v in
        rw (← deactivate_task-with_idle k.current a e (sched_init env k) first_array)
          (deactivate_task-IsValid k.current a (with_idle e (sched_init env k)) v' first_array).0

    gone : ((deactivate_task k.current (sched_init env k)).tasks k.current).array ≡ none
    unfolding init_runqueue
    gone =
        let a = pointer_to_my_active_prio_array (k.tasks k.current) other_idle.rq in
        let v = (try_to_wake_up-IsValid env k.current other_idle (booting-IsValid k e b) ne).0 in
        let v' : IsValid (with_idle e (sched_init env k)) = rw (← woken) v in
        let left =
          (deactivate_task-IsValid k.current a (with_idle e (sched_init env k)) v' first_array).1 in
        ap (λ (k' : Kernel). (k'.tasks k.current).array)
          (sym (deactivate_task-with_idle k.current a e (sched_init env k) first_array))
        ∙ ap (λ (t : Task). t.array) left

    first_runs : (sched_init env k).rq.curr ≡ k.current
    unfolding init_runqueue
    first_runs =
        let v = (try_to_wake_up-IsValid env k.current other_idle (booting-IsValid k e b) ne).0 in
        let v' : IsValid (with_idle e (sched_init env k)) = rw (← woken) v in
        v'.sound.curr
        ∙ ap (λ (k' : Kernel). k'.current) (sym woken)
        ∙ current-try_to_wake_up env k.current other_idle (b.each k.current).calm

  idle_task_IsTask :
      (t : Task)
      → IsTask t
      → IsTask
          (record t { array = none; prio = max_prio; state = task_running; need_resched = true })
  unfolding overdue_task
  idle_task_IsTask t h = ground arith

  pointers :
      (k : Kernel)
      → IsBooting k
      → (let rq = (sched_init env k).rq in
          deactivate_task k.current
            (set_rq (sched_init env k) (record rq { curr = k.current; idle = k.current })))
        ≡ with_idle k.current (deactivate_task k.current (sched_init env k))
  pointers k b =
      let e = k.current + 1 in
      let ne : k.current ≢ e = omega arith in
      let k4 = sched_init env k in
      let a = pointer_to_my_active_prio_array (k.tasks k.current) (other_idle k b e ne).rq in
      ap
        (λ (x : ℕ).
          deactivate_task k.current (set_rq k4 (record (k4.rq) { curr = x; idle = k.current })))
        (sym (first_runs k b e ne))
      ∙ deactivate_task-with_idle k.current a k.current k4 (first_array k b e ne)

  -- What init_idle makes of the task.
  abbrev idle_task : Task → Task
  idle_task t = record t {
    array = none;
    prio = max_prio;
    state = task_running;
    need_resched = true;
  }

  init_idle-sched_init :
      (k : Kernel)
      → IsBooting k
      → (let k5 = deactivate_task k.current (sched_init env k) in
          init_idle k.current (sched_init env k)
          ≡ set_task (with_idle k.current k5) k.current (idle_task (k5.tasks k.current)))
  unfolding init_idle
  init_idle-sched_init k b =
      ap (λ (k' : Kernel). set_task k' k.current (idle_task (k'.tasks k.current))) (pointers k b)

  -- sched_init and then init_idle of the running task, from a memory in which no task is queued,
  -- the counts are zero and each task is well formed, with whatever lists and bits the four arrays
  -- hold below MAX_PRIO, lead to a valid state.
  pub init_idle-sched_init-IsValid :
      (k : Kernel) → IsBooting k → IsValid (init_idle k.current (sched_init env k))
  init_idle-sched_init-IsValid k b =
      let c = k.current in
      let k4 = sched_init env k in
      let k5 = deactivate_task c k4 in
      let v1 = settled k b (c + 1) (omega arith) in
      let v2 = settled k b (c + 2) (omega arith) in
      let others : (q : ℕ) → q ≢ c → (k5.tasks q).prio < max_prio =
        λ q ne. ground (arith, v1.sound.queueable q, v2.sound.queueable q) in
      let t = idle_task (k5.tasks c) in
      let v =
        idle_fields-IsValid c t (with_idle (c + 1) k5) v1 (gone k b (c + 1) (omega arith)) refl
          (idle_task_IsTask (k5.tasks c) (v1.sound.each c)) others in
      rw (init_idle-sched_init k b) v
