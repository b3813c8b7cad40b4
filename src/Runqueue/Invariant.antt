-- ===== src/Runqueue/Invariant.antt =====
-- The operations that put a task on the runqueue and take it off keep the invariant.
use os_hw.Base.{
  ℕ, ◌≡◌, ◌≢◌, refl, sym, ap, inl, inr, true, false, not, ◌&&◌, none, some, arith, ltb, ◌==◌,
  if◌then◌else◌, if_split, Option-cases, ◌↔◌, ==_refl,
}
use os_hw.Base.Words.{sub, inc, dec}
use os_hw.Model.{Env, Task, Runqueue, Kernel, task_running, task_uninterruptible, set_task, set_rq}
use os_hw.Prio.{rt_task, overdue_task, pointer_to_my_active_prio_array}
use os_hw.Prio.Bounds.{IsTimeshare, effective_prio-IsTimeshare}
use os_hw.Queue.{dequeue_task}
use os_hw.Queue.Effects.{tasks-dequeue, rq-dequeue, rq-enqueue_tail}
use os_hw.Queue.Frame.{load, load-enqueue}
use os_hw.Valid.{IsHome, IsTask, IsSound, IsValid}
use os_hw.Valid.Parts.{IsSound-set, IsSound-put, IsSound-rq, IsSound-off, IsSound-on}
use os_hw.Valid.Moves.{take, keep, restamp, home-lt, enqueue_task_tail}
use os_hw.Runqueue.{
  deactivate_task, rewarded, reward_sleep, activate_task, wake_sleeper, try_to_wake_up,
  resched_task,
}

pub dequeue-set_rq :
    (p a : ℕ) (k : Kernel) (rq : Runqueue)
    → dequeue_task p a (set_rq k rq) ≡ set_rq (dequeue_task p a k) rq
unfolding dequeue_task
dequeue-set_rq p a k rq = ground arith

-- The runqueue's counters once a task has left.
abbrev pub left_rq : Kernel → ℕ → Runqueue
left_rq k p = record (k.rq) {
  nr_running = dec k.rq.nr_running;
  nr_uninterruptible =
      if (k.tasks p).state == task_uninterruptible
      then inc k.rq.nr_uninterruptible
      else k.rq.nr_uninterruptible;
}

pub deactivate_on :
    (p a : ℕ) (k : Kernel)
    → (k.tasks p).array ≡ some a
    → deactivate_task p k ≡ (
        let k' = set_rq (dequeue_task p a k) (left_rq k p) in
        set_task k' p (record (k'.tasks p) { array = none }))
unfolding deactivate_task
deactivate_on p a k here = rw (here, dequeue-set_rq p a k (left_rq k p))

IsTask-off : (t : Task) → IsTask t → IsTask (record t { array = none })
unfolding overdue_task
IsTask-off t h = ground arith

not_idle : (p a : ℕ) (k : Kernel) → IsSound none k → (k.tasks p).array ≡ some a → p ≢ k.rq.idle
not_idle p a k s here = ground (arith, s.idle)

-- deactivate_task of a task on an array leads from a valid state to a valid state, in which the
-- task has changed in nothing but being on no array, and the runqueue in nothing but the counts
-- that deactivate_task keeps.
pub deactivate_task-IsValid :
    (p a : ℕ) (k : Kernel)
    → IsValid k
    → (k.tasks p).array ≡ some a
    → IsValid (deactivate_task p k)
      × (((deactivate_task p k).tasks p) ≡ record (k.tasks p) { array = none })
      × ((deactivate_task p k).rq ≡ left_rq k p)
deactivate_task-IsValid p a k v here =
    let m = take p a v here in
    let k1 = dequeue_task p a k in
    let ne : p ≢ k.rq.idle = not_idle p a k v.sound here in
    let s1 = IsSound-rq (left_rq k p) m.sound (rw (rq-dequeue p a k) (ground arith)) in
    let k2 = set_rq k1 (left_rq k p) in
    let off : Task = record (k2.tasks p) { array = none } in
    let k3 = set_task k2 p off in
    let s2 = IsSound-set p off s1 (IsTask-off _ (s1.each p)) (s1.queueable p ne) ne in
    let gone : k3.tasks p ≡ off = rw (==_refl p) refl in
    rw (deactivate_on p a k here) (
      record {
        sound = IsSound-on p s2 (ap Task.array gone);
        running = ground (arith, m.running, rq-dequeue p a k);
      },
      ground (arith, gone, tasks-dequeue p a k),
      refl,
    )

module _ (env : Env) where
  rewarded-IsTask :
      (n : ℕ) (t : Task)
      → IsTask t
      → IsTask (rewarded env n t) × IsTimeshare (rewarded env n t).prio
  unfolding rewarded overdue_task
  rewarded-IsTask n t h = (ground (arith, h), effective_prio-IsTimeshare env _ h.static)

  -- The bonus moves no task between the classes.
  rewarded_home :
      (n : ℕ) (t : Task) (rq : Runqueue)
      → IsTask t
      → rt_task t ≡ false
      → pointer_to_my_active_prio_array (rewarded env n t) rq ≡ pointer_to_my_active_prio_array t rq
  unfolding pointer_to_my_active_prio_array rt_task rewarded
  rewarded_home n t rq h r = ground (arith, rewarded-IsTask n t h)

  -- What reward_sleep leaves of a state in which the task is off its list.
  pub record IsRewarded (p : ℕ) (k k' : Kernel) : Type 0 where
    pub sound : IsSound (some p) k'
    pub arrays : k'.arrays ≡ k.arrays
    pub rq : k'.rq ≡ k.rq
    pub home :
        pointer_to_my_active_prio_array (k'.tasks p) k'.rq
        ≡ pointer_to_my_active_prio_array (k.tasks p) k.rq

  pub reward_sleep-IsRewarded :
      (p : ℕ) (k : Kernel)
      → IsSound (some p) k
      → p ≢ k.rq.idle
      → IsRewarded p k (reward_sleep env p k)
  unfolding reward_sleep
  reward_sleep-IsRewarded p k s ne =
      let t = k.tasks p in
      let n = sub k.jiffies t.sleep_timestamp in
      let (fine, share) = rewarded-IsTask n t (s.each p) in
      if_split (IsRewarded p k) (not (rt_task t) && not (n == 0)) _ _
        (λ e. record {
          sound = IsSound-set p (rewarded env n t) s fine share.high ne;
          arrays = refl;
          rq = refl;
          home = rw (==_refl p) (rewarded_home n t k.rq (s.each p) (ground arith));
        })
        (λ e. record { sound = s; arrays = refl; rq = refl; home = refl })

  -- activate_task of a task on no array that is not the idle task leads from a valid state to a
  -- valid state.
  pub activate_task-IsValid :
      (p : ℕ) (k : Kernel)
      → IsValid k
      → (k.tasks p).array ≡ none
      → p ≢ k.rq.idle
      → IsValid (activate_task env p k)
  unfolding activate_task
  activate_task-IsValid p k v off ne =
      let a = pointer_to_my_active_prio_array (k.tasks p) k.rq in
      let k1 = reward_sleep env p k in
      let r = reward_sleep-IsRewarded p k (IsSound-off p v.sound off) ne in
      let at_home : IsHome k1.rq (k1.tasks p) a = inl (sym r.home) in
      let ne' : p ≢ k1.rq.idle = rw r.rq ne in
      let s2 = IsSound-put p a r.sound at_home ne' in
      let l = home-lt k1.rq (k1.tasks p) a at_home r.sound.arrays in
      let loaded = load-enqueue p a r.sound.sync (r.sound.queueable p ne') l in
      let same : load k1 ≡ load k = rw r.arrays refl in
      rw (enqueue_task_tail p a k1 r.sound) (record {
        sound = IsSound-rq _ s2 (ground arith);
        running = rw (rq-enqueue_tail p a k1, r.rq) (omega (arith, v.running, loaded, same));
      })

  wake_sleeper-IsValid :
      (p : ℕ) (k : Kernel)
      → IsValid k
      → (k.tasks p).array ≡ none
      → p ≢ k.rq.idle
      → IsValid (wake_sleeper env p k)
  unfolding wake_sleeper resched_task
  wake_sleeper-IsValid p k v off ne =
      let rq = record (k.rq) { nr_uninterruptible = dec k.rq.nr_uninterruptible } in
      let sleeping = (k.tasks p).state == task_uninterruptible in
      if_split
        (λ c.
          let k' = activate_task env p c in
          IsValid (
            if ltb (k'.tasks p).prio (k'.tasks k'.rq.curr).prio
            then resched_task k'.rq.curr k'
            else k'))
        sleeping (set_rq k rq) k
        (λ _.
          flagged p (activate_task env p (set_rq k rq))
            (activate_task-IsValid p (set_rq k rq) (restamp rq v (ground arith) refl) off ne))
        (λ _. flagged p (activate_task env p k) (activate_task-IsValid p k v off ne))
    where
      flagged :
          (p : ℕ) (k' : Kernel)
          → IsValid k'
          → IsValid (
              if ltb (k'.tasks p).prio (k'.tasks k'.rq.curr).prio
              then resched_task k'.rq.curr k'
              else k')
      flagged p k' v =
          let t = record (k'.tasks k'.rq.curr) { need_resched = true } in
          if_split IsValid (ltb (k'.tasks p).prio (k'.tasks k'.rq.curr).prio) _ _
            (λ _. keep k'.rq.curr t v (ground arith)) (λ _. v)

  -- try_to_wake_up of a task other than the idle task leads from a valid state to a valid state,
  -- and answers true exactly if the task was on no array.
  pub try_to_wake_up-IsValid :
      (p : ℕ) (k : Kernel)
      → IsValid k
      → p ≢ k.rq.idle
      → IsValid (try_to_wake_up env p k).0
        × (((try_to_wake_up env p k).1 ≡ true) ↔ ((k.tasks p).array ≡ none))
  unfolding try_to_wake_up
  try_to_wake_up-IsValid p k v ne = elim (Option-cases (k.tasks p).array) [
    | inl off ↦
        let k' = wake_sleeper env p k in
        let t = record (k'.tasks p) { state = task_running } in
        rw (off, try_to_wake_up)
          (keep p t (wake_sleeper-IsValid p k v off ne) (ground arith), (λ _. refl, λ _. refl))
    | inr (a, on) ↦
        let t = record (k.tasks p) { state = task_running } in
        rw (on, try_to_wake_up) (keep p t v (ground arith), ground arith)
  ]
