-- ===== src/Nice/Outcome.antt =====
-- What set_user_nice and sys_nice change.
use os_hw.Base.{
  ℕ, ◌≡◌, ◌≢◌, refl, ap, true, false, ◌&&◌, ◌||◌, arith, ltb, ◌==◌, ==_refl, Option-cases, if_split,
  inl, inr,
}
use os_hw.Base.Int.{ℤ, pos, negsuc, pos_part, ltb_ℤ, ◌≤ℤ◌}
use os_hw.Model.{Task, Kernel, set_task}
use os_hw.Nice.{same_nice, reniced, renice, set_nice_locked, set_user_nice}
use os_hw.Prio.{
  nice_to_prio, rt_task, overdue_task, short_task, task_nice, pointer_to_my_active_prio_array,
}
use os_hw.Prio.Bounds.{IsTimeshare}
use os_hw.Queue.{dequeue_task, enqueue_task, enqueue_tail}
use os_hw.Queue.Effects.{tasks-dequeue, rq-dequeue, tasks-enqueue_tail, rq-enqueue_tail}
use os_hw.Runqueue.{resched_task}
use os_hw.SetScheduler.Invariant.{set_off-IsValid}
use os_hw.Valid.{IsHome, IsTask, IsValid}
use os_hw.Valid.Moves.{take, change, put, keep, alter, enqueue_task_tail}

reniced-IsTask : (prio : ℕ) (t : Task) → IsTimeshare prio → IsTask t → IsTask (reniced prio t)
unfolding reniced overdue_task
reniced-IsTask prio t h fine = ground (arith, fine)

-- A timesharing task that is not overdue belongs on the same array with any priority.
reniced-IsHome :
    (prio a : ℕ) (t : Task) (k : Kernel)
    → IsTimeshare prio
    → rt_task t ≡ false
    → IsHome k.rq t a
    → IsHome k.rq (reniced prio t) a
unfolding reniced pointer_to_my_active_prio_array rt_task short_task overdue_task
reniced-IsHome prio a t k h e home = ground arith

renice-IsValid :
    (p prio : ℕ) (k : Kernel)
    → IsValid k
    → p ≢ k.rq.idle
    → IsTimeshare prio
    → rt_task (k.tasks p) ≡ false
    → IsValid (renice p prio k)
unfolding renice resched_task
renice-IsValid p prio k v ne h e = elim (Option-cases (k.tasks p).array) [
  | inl off ↦
      rw (off, renice)
        (set_off-IsValid p (reniced prio (k.tasks p)) k v off
          (record {
            fine = reniced-IsTask prio (k.tasks p) h (v.sound.each p);
            queueable = h.high;
            still = refl;
          })
          ne)
  | inr (a, on) ↦
      let k1 = dequeue_task p a k in
      let same : k1.tasks p ≡ k.tasks p =
        ap (λ (tasks : ℕ → Task). tasks p) (tasks-dequeue p a k) in
      let t = reniced prio (k1.tasks p) in
      let k2 = set_task k1 p t in
      let ne1 : p ≢ k1.rq.idle = rw (rq-dequeue p a k) ne in
      let fine : IsTask t = rw same (reniced-IsTask prio (k.tasks p) h (v.sound.each p)) in
      let m = change p t (take p a v on) fine h.high ne1 in
      let home : IsHome k2.rq (k2.tasks p) a =
        rw (==_refl p, same, rq-dequeue p a k)
          (reniced-IsHome prio a (k.tasks p) k h e (v.sound.homed p a refl on)) in
      let k3 = enqueue_task p a k2 in
      let v3 = put p a m home ne1 in
      rw (on, renice)
        (if_split IsValid (ltb prio (k3.tasks p).static_prio || (p == k3.rq.curr)) _ _
          (λ _.
            keep k3.rq.curr (record (k3.tasks k3.rq.curr) { need_resched = true }) v3
              (ground arith))
          (λ _. v3))
]

nice_prio :
    (nice : ℤ) → negsuc 19 ≤ℤ nice → nice ≤ℤ pos 19 → IsTimeshare (pos_part (nice_to_prio nice))
unfolding nice_to_prio
nice_prio nice lo hi = ground arith

set_nice_locked-IsValid :
    (p prio : ℕ) (k : Kernel)
    → IsValid k
    → p ≢ k.rq.idle
    → IsTimeshare prio
    → IsValid (set_nice_locked p prio k)
unfolding set_nice_locked overdue_task pointer_to_my_active_prio_array
set_nice_locked-IsValid p prio k v ne h =
    let t = k.tasks p in
    if_split IsValid (rt_task t) _ _
      (λ _.
        alter p (record t { static_prio = prio }) v (ground arith)
          (ground (arith, h, v.sound.each p)))
      λ timeshare.
        if_split IsValid (overdue_task t) _ _
          (λ _.
            alter p (record t { overdue_static_prio = prio }) v (ground arith)
              (ground (arith, h, v.sound.each p)))
          λ _.
            if_split IsValid (short_task t && (t.static_prio == prio)) _ _ (λ _. v)
              λ _. renice-IsValid p prio k v ne h timeshare

-- set_user_nice of a task other than the idle task leads from a valid state to a valid state,
-- whatever the niceness asked for and whatever the class of the task.
pub set_user_nice-IsValid :
    (p : ℕ) (nice : ℤ) (k : Kernel) → IsValid k → p ≢ k.rq.idle → IsValid (set_user_nice p nice k)
unfolding set_user_nice
set_user_nice-IsValid p nice k v ne =
    if_split IsValid
      (same_nice (task_nice (k.tasks p)) nice || ltb_ℤ nice (negsuc 19) || ltb_ℤ (pos 19) nice) _ _
      (λ _. v)
      λ within.
        set_nice_locked-IsValid p (pos_part (nice_to_prio nice)) k v ne
          (nice_prio nice (ground arith) (ground arith))

renice_unflagged :
    (p prio q : ℕ) (k : Kernel)
    → IsValid k
    → p ≢ k.rq.idle
    → IsTimeshare prio
    → p ≢ k.rq.curr
    → ((renice p prio k).tasks q).need_resched ≡ (k.tasks q).need_resched
unfolding renice reniced resched_task
renice_unflagged p prio q k v ne h other = elim (Option-cases (k.tasks p).array) [
  | inl off ↦ rw (off, renice) (ground arith)
  | inr (a, on) ↦
      let k1 = dequeue_task p a k in
      let t = reniced prio (k1.tasks p) in
      let k2 = set_task k1 p t in
      let ne1 : p ≢ k1.rq.idle = rw (rq-dequeue p a k) ne in
      let same = tasks-dequeue p a k in
      let fine : IsTask t = rw same (reniced-IsTask prio (k.tasks p) h (v.sound.each p)) in
      let m = change p t (take p a v on) fine h.high ne1 in
      let k3 = enqueue_tail p a k2 in
      let prio3 : (k3.tasks p).static_prio ≡ prio =
        rw (tasks-enqueue_tail p a k2 p, ==_refl p) refl in
      let curr3 : k3.rq.curr ≡ k.rq.curr = rw (rq-enqueue_tail p a k2, rq-dequeue p a k) refl in
      let flag3 : (k3.tasks q).need_resched ≡ (k.tasks q).need_resched =
        rw (tasks-enqueue_tail p a k2 q, same) (ground arith) in
      let quiet : (ltb prio (k3.tasks p).static_prio || (p == k3.rq.curr)) ≡ false =
        ground (arith, prio3, curr3) in
      rw (on, renice, enqueue_task_tail p a k2 m.sound, quiet) flag3
]

-- In a valid state, set_user_nice of a task that is neither the running task nor the idle task
-- leaves the flag need_resched of every task as it was, even if the task becomes more urgent than
-- the running one.
pub set_user_nice_unflagged :
    (p q : ℕ) (nice : ℤ) (k : Kernel)
    → IsValid k
    → p ≢ k.rq.idle
    → p ≢ k.rq.curr
    → ((set_user_nice p nice k).tasks q).need_resched ≡ (k.tasks q).need_resched
unfolding set_user_nice set_nice_locked
set_user_nice_unflagged p q nice k v ne other =
    ground (arith, nice_prio nice, renice_unflagged p (pos_part (nice_to_prio nice)) q k v ne)
