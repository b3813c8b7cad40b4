-- ===== src/Tick/Invariant.antt =====
-- scheduler_tick keeps the invariant.
use os_hw.Base.{
  ◌&&◌, ◌||◌, not, ℕ, ◌≡◌, ◌≢◌, refl, ◌⊎◌, inl, Bool, true, false, none, some, arith, points_to,
  if_split, ◌==◌, if◌then◌else◌,
}
use os_hw.Base.Words.{dec}
use os_hw.Model.{Env, Task, Runqueue, Kernel, sched_rr, set_task}
use os_hw.Prio.{
  rt_task, pointer_to_my_active_prio_array, other_task, task_interactive, task_timeslice,
}
use os_hw.Prio.Bounds.{IsTimeshare}
use os_hw.Queue.{dequeue_task, enqueue_task}
use os_hw.Queue.Effects.{rq-dequeue}
use os_hw.Valid.{IsHome, IsSound, IsValid}
use os_hw.Valid.Parts.{SamePlace}
use os_hw.Valid.Moves.{IsMoving, take, put, change, keep, keep_moving, stamp, cong}
use os_hw.Runqueue.{resched_task}
use os_hw.Tick.{
  refill, requeue, rotate_rr, expire, expired_starving, tick_rt, tick_timeshare, account,
  scheduler_tick,
}
use os_hw.Tick.Expiry.{refill-IsTask, refill-prio}

-- The array of a task that is on one and not on `expired`.
home_not_expired :
    (k : Kernel) (p a : ℕ)
    → IsSound none k
    → (k.tasks p).array ≡ some a
    → points_to (k.tasks p).array k.rq.expired ≡ false
    → a ≡ pointer_to_my_active_prio_array (k.tasks p) k.rq
home_not_expired k p a s here ne = ground (arith, s.homed p a refl here)

-- `expired` is a place for ordinary tasks alone.
expired-IsHome :
    (rq : Runqueue) (t : Task) → other_task t ≡ true → rt_task t ≡ false → IsHome rq t rq.expired
unfolding other_task rt_task pointer_to_my_active_prio_array
expired-IsHome rq t o r = ground arith

timeshare_not_rt : (t : Task) → IsTimeshare t.prio → rt_task t ≡ false
unfolding rt_task
timeshare_not_rt t h = ground arith

here_cong :
    {t : Task} (t' : Task) (rq : Runqueue)
    → SamePlace t t'
    → t.array ≡ some (pointer_to_my_active_prio_array t rq)
    → t'.array ≡ some (pointer_to_my_active_prio_array t' rq)
unfolding pointer_to_my_active_prio_array
here_cong t' rq e h = ground arith

IsHome-stamped :
    (t : Task) (rq : Runqueue) (now : ℕ)
    → IsHome rq t rq.expired
    → IsHome (record rq { expired_timestamp = now }) t rq.expired
unfolding pointer_to_my_active_prio_array
IsHome-stamped t rq now h = h

module _ (env : Env) where
  requeue-IsValid :
      (p : ℕ) (k : Kernel)
      → IsMoving p k
      → rt_task (k.tasks p) ≡ false
      → p ≢ k.rq.idle
      → IsValid (requeue env p k)
  unfolding requeue
  requeue-IsValid p k m r ne =
      let t = k.tasks p in
      let rq = k.rq in
      let stamped = record rq { expired_timestamp = k.jiffies } in
      let test = other_task t && (not (task_interactive t) || expired_starving env k) in
      if_split IsValid test _ _
        (λ e.
          let home = expired-IsHome rq t (ground arith) r in
          if_split (λ k'. IsValid (enqueue_task p rq.expired k')) _ _ _
            (λ _.
              put p rq.expired (stamp p stamped m (ground arith) refl)
                (IsHome-stamped t rq k.jiffies home) ne)
            (λ _. put p rq.expired m home ne))
        (λ e. put p (pointer_to_my_active_prio_array t rq) m (inl refl) ne)

  expire-IsValid :
      (p : ℕ) (k : Kernel)
      → IsValid k
      → (k.tasks p).array ≡ some (pointer_to_my_active_prio_array (k.tasks p) k.rq)
      → p ≢ k.rq.idle
      → IsValid (expire env p k)
  unfolding expire resched_task
  expire-IsValid p k v here ne =
      let a = pointer_to_my_active_prio_array (k.tasks p) k.rq in
      let k1 = dequeue_task p a k in
      let t2 = record (k1.tasks p) { need_resched = true } in
      let k2 = set_task k1 p t2 in
      let m2 = keep_moving p p t2 (take p a v here) (ground arith) in
      let fine = m2.sound.each p in
      let prio = refill-prio env (k2.tasks p) fine in
      let ne' : p ≢ k1.rq.idle = rw (rq-dequeue p a k) ne in
      let m3 =
        change p (refill env (k2.tasks p)) m2 (refill-IsTask env (k2.tasks p) fine) prio.high ne' in
      requeue-IsValid p (set_task k2 p (refill env (k2.tasks p))) m3
        (ground (arith, timeshare_not_rt (refill env (k2.tasks p)))) ne'

  rotate_rr-IsValid :
      (p : ℕ) (k : Kernel)
      → IsValid k
      → (k.tasks p).array ≡ some (pointer_to_my_active_prio_array (k.tasks p) k.rq)
      → p ≢ k.rq.idle
      → IsValid (rotate_rr env p k)
  unfolding rotate_rr resched_task
  rotate_rr-IsValid p k v here ne =
      let t = k.tasks p in
      let t0 = record t { time_slice = task_timeslice env t; first_time_slice = false } in
      let k0 = set_task k p t0 in
      let v0 = keep p t0 v (ground arith) in
      let t1 = record (k0.tasks p) { need_resched = true } in
      let k1 = set_task k0 p t1 in
      let v1 = keep p t1 v0 (ground arith) in
      let m =
        take p (pointer_to_my_active_prio_array (k1.tasks p) k1.rq) v1
          (here_cong (k1.tasks p) k1.rq (ground arith) here) in
      put p _ m (inl refl) (rw (rq-dequeue p _ k1) ne)

  tick_rt-IsValid :
      (p : ℕ) (k : Kernel)
      → IsValid k
      → (k.tasks p).array ≡ some (pointer_to_my_active_prio_array (k.tasks p) k.rq)
      → p ≢ k.rq.idle
      → IsValid (tick_rt env p k)
  unfolding tick_rt
  tick_rt-IsValid p k v here ne =
      let t' = record (k.tasks p) { time_slice = dec (k.tasks p).time_slice } in
      let k' = set_task k p t' in
      let v' = keep p t' v (ground arith) in
      let here' = here_cong {t = k.tasks p} (k'.tasks p) k.rq (ground arith) here in
      if_split IsValid ((k.tasks p).policy == sched_rr) _ _
        (λ _.
          if_split IsValid (t'.time_slice == 0) _ _ (λ _. rotate_rr-IsValid p k' v' here' ne)
            (λ _. v'))
        (λ _. v)

  tick_timeshare-IsValid :
      (p : ℕ) (k : Kernel)
      → IsValid k
      → (k.tasks p).array ≡ some (pointer_to_my_active_prio_array (k.tasks p) k.rq)
      → p ≢ k.rq.idle
      → IsValid (tick_timeshare env p k)
  unfolding tick_timeshare
  tick_timeshare-IsValid p k v here ne =
      let t = k.tasks p in
      let average = if t.sleep_avg == 0 then 0 else dec t.sleep_avg in
      let t' = record t { sleep_avg = average; time_slice = dec t.time_slice } in
      let k' = set_task k p t' in
      let v' = keep p t' v (ground arith) in
      let here' = here_cong {t = t} (k'.tasks p) k.rq (ground arith) here in
      if_split IsValid (t'.time_slice == 0) _ _ (λ _. expire-IsValid p k' v' here' ne) (λ _. v')

  -- In a valid state in which the running task is the idle task or stands on an array, the tick of
  -- the clock leads to a valid state: whether the task is charged, rotated, or moved to another
  -- array at the end of its slice.
  pub scheduler_tick-IsValid :
      (busy : Bool) (user_tick system a : ℕ) (k : Kernel)
      → IsValid k
      → (k.current ≡ k.rq.idle) ⊎ ((k.tasks k.current).array ≡ some a)
      → IsValid (scheduler_tick env busy user_tick system k)
  unfolding scheduler_tick account resched_task
  scheduler_tick-IsValid busy user_tick system a k v runs =
      let p = k.current in
      let k' = account user_tick system k in
      let v' = cong k k' v refl refl refl refl in
      let flagged = record (k.tasks p) { need_resched = true } in
      if_split IsValid (p == k.rq.idle) _ _
        (λ _. if_split IsValid busy _ _ (λ _. cong k _ v refl refl refl refl) (λ _. v))
        λ running.
          if_split IsValid (points_to (k.tasks p).array k.rq.expired) _ _
            (λ _. keep p flagged v' (ground arith))
            λ placed.
              let on : (k.tasks p).array ≡ some a = ground arith in
              let ne : p ≢ k.rq.idle = ground arith in
              let here : (k.tasks p).array
                  ≡ some (pointer_to_my_active_prio_array (k.tasks p) k.rq) =
                ground (arith, home_not_expired k p a v.sound on placed) in
              if_split IsValid (rt_task (k.tasks p)) _ _ (λ _. tick_rt-IsValid p k' v' here ne)
                (λ _. tick_timeshare-IsValid p k' v' here ne)
