-- ===== src/Schedule/Invariant.antt =====
-- One pass of schedule ends in a task, and keeps the invariant.
use os_hw.Base.{
  ℕ, ◌<◌, ◌≡◌, ◌≢◌, refl, ◌⊎◌, inl, inr, false, ◌&&◌, Option, none, some, arith, ◌==◌, if_split,
  Option-cases, ==-cases,
}
use os_hw.Base.Words.{word_size, inc}
use os_hw.Model.{Env, Task, Runqueue, Kernel, task_running, task_interruptible, set_task, set_rq}
use os_hw.Prio.{pointer_to_my_active_prio_array}
use os_hw.Queue.Sync.{total}
use os_hw.Queue.Frame.{InSync-frame}
use os_hw.Runqueue.Invariant.{deactivate_task-IsValid}
use os_hw.Schedule.{leave, choose_array, pick_next, switch_tasks, schedule_pass}
use os_hw.Schedule.Order.{pick_next-ready}
use os_hw.Valid.{IsHome, HasArrays, IsValid}
use os_hw.Valid.Moves.{keep, restamp}

-- A task that goes to sleep is on an array.
abbrev pub CanLeave : Kernel → Type 0
CanLeave k =
    ((k.tasks k.current).state ≡ task_running) ⊎ ((a : ℕ) × ((k.tasks k.current).array ≡ some a))

pub leave-IsValid : (k : Kernel) → IsValid k → CanLeave k → IsValid (leave k)
unfolding leave
leave-IsValid k v can =
    let p = k.current in
    let t = k.tasks p in
    let t' = record t { sleep_timestamp = k.jiffies } in
    let k' = set_task k p t' in
    let v' = keep p t' v (ground arith) in
    if_split IsValid (t.state == task_running) _ _ (λ _. v')
      λ asleep.
        if_split IsValid (t.state == task_interruptible && t.sigpending) _ _
          (λ _. keep p (record t' { state = task_running }) v (ground arith))
          (λ _. elim can [
            | inl e ↦ absurd (ground arith)
            | inr (a, on) ↦ (deactivate_task-IsValid p a k' v' (ground arith)).0
          ])

-- `expired` and `active` change places.
abbrev swapped : Runqueue → Runqueue
swapped rq = record rq { expired = rq.active; active = rq.expired; expired_timestamp = 0 }

IsHome-swapped :
    (rq : Runqueue) (t : Task) (a : ℕ) → HasArrays rq → IsHome rq t a → IsHome (swapped rq) t a
unfolding pointer_to_my_active_prio_array
IsHome-swapped rq t a h home = ground arith

swapped-IsValid : (k : Kernel) → IsValid k → IsValid (set_rq k (swapped k.rq))
swapped-IsValid k v =
    let s = v.sound in
    record {
      sound = record {
        sync = InSync-frame k (set_rq k (swapped k.rq)) s.sync refl λ q o. (refl, refl);
        homed = λ q a o e. IsHome-swapped k.rq (k.tasks q) a s.arrays (s.homed q a o e);
        each = s.each;
        queueable = s.queueable;
        arrays = ground (arith, s.arrays);
        curr = s.curr;
        idle = s.idle;
      };
      running = v.running;
    }

choose_array-IsValid : (k : Kernel) → IsValid k → IsValid (choose_array k).0
unfolding choose_array
choose_array-IsValid k v = ground (arith, swapped-IsValid k v)

IsHome-switched :
    (rq : Runqueue) (t : Task) (a n switches : ℕ)
    → IsHome rq t a
    → IsHome (record rq { nr_switches = switches; curr = n }) t a
unfolding pointer_to_my_active_prio_array
IsHome-switched rq t a n switches home = home

pub switch_tasks-IsValid : (n : ℕ) (k : Kernel) → IsValid k → IsValid (switch_tasks n k)
unfolding switch_tasks
switch_tasks-IsValid n k v =
    let t = record (k.tasks k.current) { need_resched = false } in
    let v' = keep k.current t v (ground arith) in
    if_split IsValid (k.current == n) _ _ (λ _. v')
      (λ _. switched (set_task k k.current t) v' n (inc k.rq.nr_switches))
  where
    switched :
        (k : Kernel)
        → IsValid k
        → (n switches : ℕ)
        → IsValid
            (record k { rq = record (k.rq) { nr_switches = switches; curr = n }; current = n })
    switched k v n switches =
        let s = v.sound in
        record {
          sound = record {
            sync = InSync-frame k _ s.sync refl λ q o. (refl, refl);
            homed = λ q a o e. IsHome-switched k.rq (k.tasks q) a n switches (s.homed q a o e);
            each = s.each;
            queueable = s.queueable;
            arrays = ground (arith, s.arrays);
            curr = refl;
            idle = s.idle;
          };
          running = v.running;
        }

module _ (env : Env) where
  pub pick_next-IsValid : (k : Kernel) → IsValid k → IsValid (pick_next env k).0
  unfolding pick_next
  pick_next-IsValid k v =
      if_split {A = Kernel × Option ℕ} (λ r. IsValid r.0) (k.rq.nr_running == 0) _ _
        (λ _. restamp (record (k.rq) { expired_timestamp = 0 }) v (ground arith) refl)
        (λ _. choose_array-IsValid k v)

  idle_found : (k : Kernel) → k.rq.nr_running ≡ 0 → (pick_next env k).1 ≢ none
  unfolding pick_next
  idle_found k idle = ground arith

  pub pick_next_found :
      (k : Kernel)
      → IsValid k
      → ((a : ℕ) → total (k.arrays a) < word_size)
      → (pick_next env k).1 ≢ none
  pick_next_found k v fits = elim (==-cases k.rq.nr_running 0) [
    | inl idle ↦ idle_found k idle
    | inr busy ↦ (pick_next-ready env k v fits busy).1
  ]

  -- In a valid state whose running task is in state TASK_RUNNING or stands on an array, and in
  -- which, after that task has left if it sleeps, no array holds 2 ^ 32 tasks, one pass of
  -- schedule finds a task to switch to and the state after it is valid.
  pub schedule_pass-IsValid :
      (k : Kernel)
      → IsValid k
      → CanLeave k
      → ((a : ℕ) → total ((leave k).arrays a) < word_size)
      → (k' : Kernel) × (schedule_pass env k ≡ some k') × IsValid k'
  unfolding schedule_pass
  schedule_pass-IsValid k v can fits =
      let k1 = leave k in
      let v1 = leave-IsValid k v can in
      elim (Option-cases (pick_next env k1).1) [
        | inl e ↦ absurd (pick_next_found k1 v1 fits e)
        | inr (n, e) ↦ (
          switch_tasks n (pick_next env k1).0,
          rw (e, schedule_pass),
          switch_tasks-IsValid n (pick_next env k1).0 (pick_next-IsValid k1 v1),
        )
      ]
