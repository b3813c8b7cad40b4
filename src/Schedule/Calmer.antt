-- ===== src/Schedule/Calmer.antt =====
-- What the parts of a pass of schedule leave of the flags need_resched, the lists and the idle task.
use mathlib.Core.Path.{subst}
use os_hw.Base.{
  ℕ, ◌≤◌, ◌≡◌, refl, sym, ◌∙◌, ◌⊎◌, inl, inr, true, false, ◌&&◌, Option, some, arith, ◌==◌,
  if_split, Option-cases, ==-cases, ==_refl, count, count-first,
}
use os_hw.Model.{Env, Task, Kernel, task_running, task_interruptible, set_task}
use os_hw.Queue.Effects.{tasks-dequeue, current-dequeue}
use os_hw.Queue.Sync.{total, total-dequeue_self, total-dequeue_ne}
use os_hw.Runqueue.{deactivate_task}
use os_hw.Runqueue.Invariant.{deactivate_on}
use os_hw.Schedule.{leave, choose_array, first_task, pick_next, switch_tasks}
use os_hw.Schedule.Invariant.{CanLeave}
use os_hw.Valid.{IsValid}
use os_hw.Valid.Moves.{keep}

-- What a pass may change: no flag is set, the lists grow no longer, and idle stays.
pub record IsCalmer (k k' : Kernel) : Type 0 where
  pub flags : (q : ℕ) → (k'.tasks q).need_resched ≡ true → (k.tasks q).need_resched ≡ true
  pub totals : (a : ℕ) → total (k'.arrays a) ≤ total (k.arrays a)
  pub idle : k'.rq.idle ≡ k.rq.idle
  pub idle_runs :
      (k.tasks k.rq.idle).state ≡ task_running → (k'.tasks k.rq.idle).state ≡ task_running

deactivate_task-IsCalmer :
    (p a : ℕ) (k : Kernel)
    → IsValid k
    → (k.tasks p).array ≡ some a
    → IsCalmer k (deactivate_task p k)
deactivate_task-IsCalmer p a k v here = rw (deactivate_on p a k here) (record {
  flags = λ q. ground (arith, tasks-dequeue p a k);
  totals = λ b. elim (==-cases a b) [
    | inl same ↦ ground (arith, total-dequeue_self p a v.sound.sync here)
    | inr other ↦ ground (arith, total-dequeue_ne p a v.sound.sync here b other)
  ];
  idle = refl;
  idle_runs = ground (arith, tasks-dequeue p a k);
})

IsCalmer-set :
    (p : ℕ) (t : Task) (k : Kernel)
    → t.need_resched ≡ (k.tasks p).need_resched
    → (t.state ≡ task_running) ⊎ (t.state ≡ (k.tasks p).state)
    → IsCalmer k (set_task k p t)
IsCalmer-set p t k flag state = record {
  flags = λ q. ground arith;
  totals = λ a. omega arith;
  idle = refl;
  idle_runs = ground arith;
}

pub IsCalmer-trans : (k k' k'' : Kernel) → IsCalmer k k' → IsCalmer k' k'' → IsCalmer k k''
IsCalmer-trans k k' k'' a b = record {
  flags = λ q h. a.flags q (b.flags q h);
  totals = λ c. omega (arith, a.totals c, b.totals c);
  idle = b.idle ∙ a.idle;
  idle_runs = λ h.
      subst (λ i. (k''.tasks i).state ≡ task_running) a.idle
        (b.idle_runs (subst (λ i. (k'.tasks i).state ≡ task_running) (sym a.idle) (a.idle_runs h)));
}

pub leave-IsCalmer : (k : Kernel) → IsValid k → CanLeave k → IsCalmer k (leave k)
unfolding leave
leave-IsCalmer k v can =
    let p = k.current in
    let t = k.tasks p in
    let t' = record t { sleep_timestamp = k.jiffies } in
    let k' = set_task k p t' in
    let v' : IsValid k' = keep p t' v (ground arith) in
    let a : IsCalmer k k' = IsCalmer-set p t' k refl (inr refl) in
    if_split (IsCalmer k) (t.state == task_running) _ _ (λ _. a)
      λ asleep.
        if_split (IsCalmer k) (t.state == task_interruptible && t.sigpending) _ _
          (λ _. IsCalmer-set p (record t' { state = task_running }) k refl (inl refl))
          (λ _. elim can [
            | inl e ↦ absurd (ground arith)
            | inr (b, on) ↦
                IsCalmer-trans k k' (deactivate_task p k') a
                  (deactivate_task-IsCalmer p b k' v' (ground arith))
          ])

choose_array-IsCalmer : (k : Kernel) → IsCalmer k (choose_array k).0
unfolding choose_array
choose_array-IsCalmer k = record {
  flags = λ q. ground arith;
  totals = λ a. ground arith;
  idle = ground arith;
  idle_runs = ground arith;
}

pub switch_tasks-IsCalmer : (n : ℕ) (k : Kernel) → IsCalmer k (switch_tasks n k)
unfolding switch_tasks
switch_tasks-IsCalmer n k = record {
  flags = λ q. ground arith;
  totals = λ a. ground arith;
  idle = ground arith;
  idle_runs = ground arith;
}

-- The flag of the task that leaves is clear.
pub switch_tasks_clears :
    (n : ℕ) (k : Kernel) → ((switch_tasks n k).tasks k.current).need_resched ≡ false
unfolding switch_tasks
switch_tasks_clears n k = ground (arith, ==_refl k.current)

pub switch_tasks_next :
    (n : ℕ) (k : Kernel)
    → (((switch_tasks n k).tasks n).array ≡ (k.tasks n).array)
      × (((switch_tasks n k).tasks n).state ≡ (k.tasks n).state)
      × ((switch_tasks n k).current ≡ n)
unfolding switch_tasks
switch_tasks_next n k = ground arith

-- A task on a list of an array points to that array.
queued-array :
    (k : Kernel) (a i q : ℕ)
    → IsValid k
    → 1 ≤ count q ((k.arrays a).queue i)
    → (k.tasks q).array ≡ some a
queued-array k a i q v h = ground (arith, v.sound.sync.placed a i q)

deactivate_task_current : (p : ℕ) (k : Kernel) → (deactivate_task p k).current ≡ k.current
unfolding deactivate_task
deactivate_task_current p k = elim (Option-cases (k.tasks p).array) [
  | inl e ↦ rw (e, deactivate_task) refl
  | inr (a, e) ↦ rw (e, deactivate_task) (current-dequeue p a _)
]

pub leave_current : (k : Kernel) → (leave k).current ≡ k.current
unfolding leave
leave_current k =
    let t = k.tasks k.current in
    let t' = record t { sleep_timestamp = k.jiffies } in
    ground (arith, deactivate_task_current k.current (set_task k k.current t'))

module _ (env : Env) where
  pub pick_next-IsCalmer : (k : Kernel) → IsCalmer k (pick_next env k).0
  unfolding pick_next
  pick_next-IsCalmer k =
      if_split {A = Kernel × Option ℕ} (λ r. IsCalmer k r.0) (k.rq.nr_running == 0) _ _
        (λ _. record {
          flags = λ q h. h;
          totals = λ a. omega arith;
          idle = refl;
          idle_runs = λ h. h;
        })
        (λ _. choose_array-IsCalmer k)

  pub pick_next_current : (k : Kernel) → (pick_next env k).0.current ≡ k.current
  unfolding pick_next choose_array
  pick_next_current k = ground arith

  -- Whoever is picked is the idle task, or stands on an array.
  pub pick_next_picked :
      (k : Kernel) (n : ℕ)
      → IsValid (pick_next env k).0
      → (pick_next env k).1 ≡ some n
      → (n ≡ (pick_next env k).0.rq.idle)
        ⊎ ((a : ℕ) × (((pick_next env k).0.tasks n).array ≡ some a))
  unfolding pick_next first_task
  pick_next_picked k n =
      if_split {A = Kernel × Option ℕ}
        (λ r.
          IsValid r.0
          → r.1 ≡ some n
          → (n ≡ r.0.rq.idle) ⊎ ((a : ℕ) × ((r.0.tasks n).array ≡ some a)))
        (k.rq.nr_running == 0) _ _ (λ _ v e. inl (ground arith))
        (λ _ v e.
          let (k', a) = choose_array k in
          let i = env.sched_find_first_bit (k'.arrays a).bitmap in
          inr (a, queued-array k' a i n v (count-first n ((k'.arrays a).queue i) e)))
